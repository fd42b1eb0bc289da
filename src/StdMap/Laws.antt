-- ===== src/StdMap/Laws.antt =====
-- Laws of `std::map`.
use one_fass.Base.{
  ℕ, suc, Bool, none, some, [], ◌∷◌, ◌≡◌, refl, arith, ltb, length, All, if◌then◌else◌, inl, inr,
  Option-cases, Bool-cases, ◌==◌,
}
use one_fass.StdMap.{Map, find, place, insert, IsSorted}

module _ {ℓ κ} {K : Type ℓ} {V : Type κ} (lt : K → K → Bool) where
  place-IsSorted :
      (k : K) (v : V) (m : Map K V)
      → find lt k m ≡ none
      → IsSorted lt m
      → IsSorted lt (place lt k v m)
  unfolding find place
  place-IsSorted k v [] e s = tt
  place-IsSorted k v ((j, w) ∷ []) e s = ground arith
  place-IsSorted k v ((j, w) ∷ (i, u) ∷ m) e s = ground (arith, place-IsSorted k v ((i, u) ∷ m))

  pub insert-IsSorted :
      (k : K) (v : V) (m : Map K V) → IsSorted lt m → IsSorted lt (insert lt k v m)
  unfolding insert
  insert-IsSorted k v m s = elim (Option-cases (find lt k m)) [
    | inl e ↦ rw (e, insert) (place-IsSorted k v m e s)
    | inr (w, e) ↦ rw (e, insert) s
  ]

  -- An entry with the key is there already: nothing changes.
  pub insert_present : (k : K) (v w : V) (m : Map K V) → find lt k m ≡ some w → insert lt k v m ≡ m
  unfolding insert
  insert_present k v w m e = rw (e, insert)

  pub place-All {ι} :
      (P : K × V → Type ι) (k : K) (v : V) (m : Map K V)
      → P (k, v)
      → All P m
      → All P (place lt k v m)
  unfolding place
  place-All P k v [] p h = (p, tt)
  place-All P k v ((j, w) ∷ m) p (q, h) = elim (Bool-cases (lt k j)) [
    | inl e ↦ rw e (p, (q, h))
    | inr e ↦ rw e (q, place-All P k v m p h)
  ]

  pub insert-All {ι} :
      (P : K × V → Type ι) (k : K) (v : V) (m : Map K V)
      → P (k, v)
      → All P m
      → All P (insert lt k v m)
  unfolding insert
  insert-All P k v m p h = elim (Option-cases (find lt k m)) [
    | inl e ↦ rw (e, insert) (place-All P k v m p h)
    | inr (w, e) ↦ rw (e, insert) h
  ]

  pub length-place : (k : K) (v : V) (m : Map K V) → length (place lt k v m) ≡ suc (length m)
  unfolding place
  length-place k v [] = refl
  length-place k v ((j, w) ∷ m) = ground (arith, length-place k v m)

-- Keys compared by `<` on numbers.
module _ {κ} {V : Type κ} where
  find-place :
      (k j : ℕ) (v : V) (m : Map ℕ V)
      → find ltb k m ≡ none
      → find ltb j (place ltb k v m) ≡ (if k == j then some v else find ltb j m)
  unfolding find place
  find-place k j v [] e = ground arith
  find-place k j v ((i, w) ∷ m) e = ground (arith, find-place k j v m)

  pub find-insert :
      (k j : ℕ) (v : V) (m : Map ℕ V)
      → find ltb k m ≡ none
      → find ltb j (insert ltb k v m) ≡ (if k == j then some v else find ltb j m)
  unfolding insert
  find-insert k j v m e = rw (e, insert) (find-place k j v m e)
