-- ===== src/Terminator/Collect.antt =====
-- The calls of a loop over the pool that adds, for each VM, those that the clock of its round asks for.
use mathlib.Core.Path.{subst}
use mathlib.Core.Option.{some-injective}
use native.Mathlib.Nat.{add-zero, zero-add}
use one_fass.Base.{
  ℕ, zero, suc, ◌+◌, ℤ, some, List, [], ◌∷◌, ◌++◌, ◌≡◌, ◌↔◌, ◌⊎◌, inl, inr, refl, sym, arith,
  get_elem?, Among, Among-append,
}

shift : (k i : ℕ) → suc k + i ≡ k + suc i
shift k i = omega arith

module _ {A C : Type 0} (g : ℤ → A → List C) (now : ℕ → ℤ) where
  abbrev pub collect : ℕ → List A → List C
  collect k [] = []
  collect k (a ∷ rest) = g (now k) a ++ collect (suc k) rest

  -- A call that the element in round i of the loop asks for, counted from round k.
  abbrev pub Asked : ℕ → List A → C → Type 0
  Asked k xs c = (i : ℕ) × (a : A) × (get_elem? xs i ≡ some a) × Among c (g (now (k + i)) a)

  Asked-cons :
      (k : ℕ) (a : A) (xs : List A) (c : C)
      → Asked k (a ∷ xs) c
      → Among c (g (now k) a) ⊎ Asked (suc k) xs c
  Asked-cons k a xs c (zero, b, at, m) =
      inl (subst (λ d. Among c (g (now k) d)) (sym (some-injective _ _ at)) (rw (add-zero k) at m))
  Asked-cons k a xs c (suc i, b, at, m) = inr (i, b, at, rw (shift k i) m)

  pub collect_iff : (k : ℕ) (xs : List A) (c : C) → Among c (collect k xs) ↔ Asked k xs c
  collect_iff k [] c = (λ m. absurd m, λ h. cc (h.2))
  collect_iff k (a ∷ xs) c =
      let (split, join) = Among-append c (g (now k) a) (collect (suc k) xs) in
      let (forth, back) = collect_iff (suc k) xs c in
      (
        λ m. elim (split m) [
          | inl l ↦ (0, a, refl, rw (add-zero k) l)
          | inr r ↦ let (i, b, at, l) = forth r in (suc i, b, at, rw (← shift k i) l)
        ],
        λ h. join (elim (Asked-cons k a xs c h) [ inl l ↦ inl l | inr r ↦ inr (back r) ]),
      )

  pub collect_iff_zero :
      (xs : List A) (c : C)
      → Among c (collect 0 xs)
        ↔ ((i : ℕ) × (a : A) × (get_elem? xs i ≡ some a) × Among c (g (now i) a))
  collect_iff_zero xs c =
      let (forth, back) = collect_iff 0 xs c in
      (
        λ m. let (i, a, at, l) = forth m in (i, a, at, rw (zero-add i) at l),
        λ h. let (i, a, at, l) = h in back (i, a, at, rw (zero-add i) l),
      )
