-- ===== src/Xml/Memory/Pools/Keys.antt =====
-- The keys that the map of a pool has.
use one_fass.Base.{
  none, some, Option, Option-cases, ℤ, Bool, true, false, List, ◌∷◌, ◌≡◌, sym, ap, ◌∙◌, inl, inr,
  Bool-cases, arith, ltb_ℤ, ◌==ℤ◌, ◌||◌, eq_of_parts,
}
use one_fass.StdMap.{find, insert, Map, place}
use one_fass.StdMap.Laws.{insert_present}
use one_fass.StdMap.Order.{find-place_other}
use one_fass.StdMap.Presence.{Has-place_self}
use one_fass.Xml.Memory.Pools.Counts.{mem}

abbrev pub is_some : {A : Type 0} → Option A → Bool
is_some none = false
is_some (some a) = true

module _ {V : Type 0} where
  -- The keys of the map.
  abbrev pub Agrees : List ℤ → Map ℤ V → Type 0
  Agrees seen m = (k : ℤ) → is_some (find ltb_ℤ k m) ≡ mem k seen

  pub absent :
      (seen : List ℤ) (m : Map ℤ V) (k : ℤ)
      → Agrees seen m
      → mem k seen ≡ false
      → find ltb_ℤ k m ≡ none
  absent seen m k h e = elim (Option-cases (find ltb_ℤ k m)) [
    | inl p ↦ p
    | inr (v, p) ↦ let q = h k in cc
  ]

  pub present :
      (seen : List ℤ) (m : Map ℤ V) (k : ℤ) (v : V)
      → Agrees seen m
      → mem k seen ≡ true
      → insert ltb_ℤ k v m ≡ m
  present seen m k v h e = elim (Option-cases (find ltb_ℤ k m)) [
    | inl p ↦ let q = h k in cc
    | inr (w, p) ↦ insert_present ltb_ℤ k v w m p
  ]

  pub Agrees-place :
      (seen : List ℤ) (m : Map ℤ V) (key : ℤ) (v : V)
      → Agrees seen m
      → Agrees (key ∷ seen) (place ltb_ℤ key v m)
  Agrees-place seen m key v h k = elim (Bool-cases (k ==ℤ key)) [
    | inl p ↦
        let e : k ≡ key = ground (arith, eq_of_parts k key) in
        let (w, q) = Has-place_self ltb_ℤ (λ j. ground arith) key v m in
        ap is_some (ap (λ j. find ltb_ℤ j (place ltb_ℤ key v m)) e ∙ q)
        ∙ sym (ap (λ c. c || mem k seen) p)
    | inr p ↦
        ap is_some (find-place_other k key v m (λ e. ground (arith, e)))
        ∙ h k
        ∙ sym (ap (λ c. c || mem k seen) p)
  ]
