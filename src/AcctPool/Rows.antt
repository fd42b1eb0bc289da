-- ===== src/AcctPool/Rows.antt =====
-- Passes over an array, in closed form.
use one_fass.Base.{
  ℕ, zero, suc, ◌≤◌, ◌<◌, none, some, List, [], ◌∷◌, ◌++◌, ◌≡◌, refl, arith, drop, length,
}
use one_fass.AcctPool.{sweep}

module _ {ℓ} {A : Type ℓ} where
  -- g k, g (k + 1), and so on: n values.
  abbrev pub row : ℕ → ℕ → (ℕ → A) → List A
  row zero k g = []
  row (suc n) k g = g k ∷ row n (suc k) g

  pub sweep-row :
      (h : ℕ → A → A) (n k : ℕ) (g : ℕ → A) (t : List A)
      → sweep h n k (row n k g ++ t) ≡ some (row n k (λ j. h j (g j)) ++ t)
  unfolding sweep
  sweep-row h zero k g t = refl
  sweep-row h (suc n) k g t = rw (sweep-row h n (suc k) g t)

  pub sweep_clear :
      (a : A) (n k : ℕ) (xs : List A)
      → n ≤ length xs
      → sweep (λ j x. a) n k xs ≡ some (row n k (λ j. a) ++ drop n xs)
  unfolding sweep
  sweep_clear a zero k xs h = refl
  sweep_clear a (suc n) k [] h = elim h [ ]
  sweep_clear a (suc n) k (x ∷ xs) h = rw (sweep_clear a n (suc k) xs (omega arith))

  -- A pass over more elements than there are leaves the array.
  pub sweep_overrun :
      (h : ℕ → A → A) (n k : ℕ) (xs : List A) → length xs < n → sweep h n k xs ≡ none
  unfolding sweep
  sweep_overrun h zero k xs e = elim e [ ]
  sweep_overrun h (suc n) k [] e = refl
  sweep_overrun h (suc n) k (x ∷ xs) e = rw (sweep_overrun h n (suc k) xs (omega arith))
