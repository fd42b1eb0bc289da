-- ===== src/StdMap/Presence.antt =====
-- Which keys a map answers to, under a comparator that puts no key before itself.
use one_fass.Base.{
  ap, Bool, true, false, some, [], ◌∷◌, ◌≡◌, Among, inl, inr, Option-cases, Bool-cases,
}
use one_fass.StdMap.{Map, same, find, place, insert}

same_refl {ℓ} : {K : Type ℓ} (lt : K → K → Bool) (k : K) → lt k k ≡ false → same lt k k ≡ true
same_refl lt k h = rw h

module _ {K V : Type 0} (lt : K → K → Bool) where
  -- An entry with an equivalent key is there.
  abbrev pub Has : K → Map K V → Type 0
  Has k m = (v : V) × (find lt k m ≡ some v)

  Has-cons : (k : K) (e : K × V) (m : Map K V) → Has k m → Has k (e ∷ m)
  unfolding find
  Has-cons k (j, w) m (v, h) = elim (Bool-cases (same lt k j)) [
    | inl p ↦ (w, rw p)
    | inr p ↦ (v, rw (p, h))
  ]

  Has-place : (i k : K) (v : V) (m : Map K V) → Has i m → Has i (place lt k v m)
  unfolding find place
  Has-place i k v [] (w, h) = cc
  Has-place i k v ((j, u) ∷ m) (w, h) = elim (Bool-cases (lt k j)) [
    | inl p ↦ rw p (Has-cons i (k, v) ((j, u) ∷ m) (w, h))
    | inr p ↦ rw p (elim (Bool-cases (same lt i j)) [
      | inl q ↦ (u, rw q)
      | inr q ↦ Has-cons i (j, u) (place lt k v m) (Has-place i k v m (w, rw q at h))
    ])
  ]

  pub Has-insert : (i k : K) (v : V) (m : Map K V) → Has i m → Has i (insert lt k v m)
  unfolding insert
  Has-insert i k v m h = elim (Option-cases (find lt k m)) [
    | inl e ↦ rw (e, insert) (Has-place i k v m h)
    | inr (w, e) ↦ rw (e, insert) h
  ]

  module _ (irreflexive : (k : K) → lt k k ≡ false) where
    pub Has-place_self : (k : K) (v : V) (m : Map K V) → Has k (place lt k v m)
    unfolding find place
    Has-place_self k v [] = (v, rw (same_refl lt k (irreflexive k)))
    Has-place_self k v ((j, u) ∷ m) = elim (Bool-cases (lt k j)) [
      | inl p ↦ rw p (v, rw (same_refl lt k (irreflexive k)))
      | inr p ↦ rw p (Has-cons k (j, u) (place lt k v m) (Has-place_self k v m))
    ]

    pub Has-insert_self : (k : K) (v : V) (m : Map K V) → Has k (insert lt k v m)
    unfolding insert
    Has-insert_self k v m = elim (Option-cases (find lt k m)) [
      | inl e ↦ rw (e, insert) (Has-place_self k v m)
      | inr (w, e) ↦ rw (e, insert) (w, e)
    ]

    pub Has-Among : (e : K × V) (m : Map K V) → Among e m → Has e.0 m
    unfolding find
    Has-Among e [] h = absurd h
    Has-Among e ((j, w) ∷ m) (inl p) = (w, rw (ap (λ d. d.0) p, same_refl lt j (irreflexive j)))
    Has-Among e ((j, w) ∷ m) (inr h) = Has-cons e.0 (j, w) m (Has-Among e m h)
