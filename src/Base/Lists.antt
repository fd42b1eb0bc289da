-- ===== src/Base/Lists.antt =====
-- Lists measured and indexed by native numbers, under the library's names, and a predicate on all
-- the elements of a list.
use Prim.Native.Nat.{ℕ, zero, suc, ◌+◌}
use mathlib.Core.Path.{◌≡◌, refl, ap, subst}
use mathlib.Core.Option.{Option, none, some, some-injective}
use mathlib.Core.Logic.{◌⊎◌, ◌↔◌, inl, inr}
use mathlib.Core.List.{List, [], ◌∷◌, ◌++◌}
use native.Mathlib.Omega.{arith}

module _ {ℓ} {A : Type ℓ} where
  abbrev pub length : List A → ℕ
  length [] = 0
  length (x ∷ xs) = suc (length xs)

  abbrev pub take : ℕ → List A → List A
  take zero xs = []
  take (suc n) [] = []
  take (suc n) (x ∷ xs) = x ∷ take n xs

  abbrev pub drop : ℕ → List A → List A
  drop zero xs = xs
  drop (suc n) [] = []
  drop (suc n) (x ∷ xs) = drop n xs

  pub length-append : (xs ys : List A) → length (xs ++ ys) ≡ length xs + length ys
  length-append [] ys = omega arith
  length-append (x ∷ xs) ys = omega (arith, length-append xs ys)

  pub take-append_self : (xs ys : List A) → take (length xs) (xs ++ ys) ≡ xs
  take-append_self [] ys = refl
  take-append_self (x ∷ xs) ys = ap (◌∷◌ x) (take-append_self xs ys)

  pub drop-append_self : (xs ys : List A) → drop (length xs) (xs ++ ys) ≡ ys
  drop-append_self [] ys = refl
  drop-append_self (x ∷ xs) ys = drop-append_self xs ys

  abbrev pub All {κ} : (A → Type κ) → List A → Type κ
  All P [] = Unit
  All P (x ∷ xs) = P x × All P xs

  pub All-append {κ} : (P : A → Type κ) (xs ys : List A) → All P xs → All P ys → All P (xs ++ ys)
  All-append P [] ys _ q = q
  All-append P (x ∷ xs) ys (p, ps) q = (p, All-append P xs ys ps q)

  pub All-map {κ ι} :
      {P : A → Type κ} {Q : A → Type ι}
      → ((x : A) → P x → Q x)
      → (xs : List A) → All P xs
      → All Q xs
  All-map f [] _ = tt
  All-map f (x ∷ xs) (p, ps) = (f x p, All-map f xs ps)

module _ {ℓ} {A : Type ℓ} where
  abbrev pub get_elem? : List A → ℕ → Option A
  get_elem? [] i = none
  get_elem? (x ∷ xs) zero = some x
  get_elem? (x ∷ xs) (suc i) = get_elem? xs i

module _ {A : Type 0} where
  -- The value is an element of the list, at a place that the proof shows.
  abbrev pub Among : A → List A → Type 0
  Among a [] = ⊥
  Among a (x ∷ xs) = (a ≡ x) ⊎ Among a xs

  pub Among-append : (a : A) (xs ys : List A) → Among a (xs ++ ys) ↔ (Among a xs ⊎ Among a ys)
  Among-append a [] ys = (inr, λ h. elim h [ inl e ↦ absurd e | inr m ↦ m ])
  Among-append a (x ∷ xs) ys =
      let (split, join) = Among-append a xs ys in
      (
        λ h. elim h [
          | inl e ↦ inl (inl e)
          | inr m ↦ elim (split m) [ inl l ↦ inl (inr l) | inr r ↦ inr r ]
        ],
        λ h. elim h [
          | inl l ↦ elim l [ inl e ↦ inl e | inr m ↦ inr (join (inl m)) ]
          | inr r ↦ inr (join (inr r))
        ],
      )

module _ {ℓ} {A : Type ℓ} where
  pub All-get_elem? {κ} :
      (P : A → Type κ) (i : ℕ) (xs : List A) {x : A} → All P xs → get_elem? xs i ≡ some x → P x
  All-get_elem? P i [] h e = cc
  All-get_elem? P zero (y ∷ ys) (p, ps) e = subst P (some-injective _ _ e) p
  All-get_elem? P (suc i) (y ∷ ys) (p, ps) e = All-get_elem? P i ys ps e
