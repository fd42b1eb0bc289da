-- ===== src/StdMap.antt =====
-- `std::map` over a comparator, as the list of its entries in iteration order. Two keys are the same
-- if neither goes before the other, and `insert` leaves an entry that is there as it is.
pub mod Laws
pub mod Order
pub mod Entries
pub mod Presence
use one_fass.Base.{Bool, true, not, ◌&&◌, Option, none, some, List, [], ◌∷◌, ◌≡◌, if◌then◌else◌}

abbrev pub Map {ℓ κ} : Type ℓ → Type κ → Type (ℓ ⊔ κ)
Map K V = List (K × V)

module _ {ℓ} {K : Type ℓ} (lt : K → K → Bool) where
  abbrev pub same : K → K → Bool
  same a b = not (lt a b) && not (lt b a)

  module _ {κ} {V : Type κ} where
    unfoldable pub find : K → Map K V → Option V
    find k [] = none
    find k ((j, w) ∷ m) = if same k j then some w else find k m

    -- The new entry goes before the first one that it precedes.
    unfoldable pub place : K → V → Map K V → Map K V
    place k v [] = (k, v) ∷ []
    place k v ((j, w) ∷ m) = if lt k j then (k, v) ∷ (j, w) ∷ m else (j, w) ∷ place k v m

    unfoldable pub insert : K → V → Map K V → Map K V
    unfolding find place
    insert k v m = elim (find k m) [ none ↦ place k v m | some w ↦ m ]

  -- Each entry's key goes before the next one's.
  abbrev pub IsSorted {κ} : {V : Type κ} → Map K V → Type 0
  IsSorted [] = Unit
  IsSorted (e ∷ []) = Unit
  IsSorted (e ∷ d ∷ m) = (lt e.0 d.0 ≡ true) × IsSorted (d ∷ m)
