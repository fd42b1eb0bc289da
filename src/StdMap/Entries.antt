-- ===== src/StdMap/Entries.antt =====
-- Maps over consecutive numbers.
use one_fass.Base.{
  true, false, ℕ, zero, suc, ◌+◌, ◌≤◌, ◌<◌, none, some, [], ◌∷◌, ◌++◌, ◌≡◌, refl, arith, ltb, All,
  inl, inr, ◌==◌, Bool-cases,
}
use mathlib.Core.Option.{some-injective}
use one_fass.StdMap.{Map, same, find, place, insert}

pub same_self : (k : ℕ) → same ltb k k ≡ true
same_self k = ground arith

pub same_lt : (k j : ℕ) → k < j → same ltb j k ≡ false
same_lt k j h = ground arith

-- A map with the keys k, k + 1, and so on.
module _ {κ} {V : Type κ} where
  abbrev pub entries : ℕ → ℕ → (ℕ → V) → Map ℕ V
  entries zero k g = []
  entries (suc n) k g = (k, g k) ∷ entries n (suc k) g

  pub insert_last :
      (k : ℕ) (v : V) (m : Map ℕ V) → All (λ e. e.0 < k) m → insert ltb k v m ≡ m ++ ((k, v) ∷ [])
  unfolding insert
  insert_last k v m h = rw (absent m h, insert) (placed m h)
    where
      absent : (m : Map ℕ V) → All (λ e. e.0 < k) m → find ltb k m ≡ none
      absent [] h = refl
      absent ((j, w) ∷ m) (p, h) = ground (arith, absent m h)

      placed : (m : Map ℕ V) → All (λ e. e.0 < k) m → place ltb k v m ≡ m ++ ((k, v) ∷ [])
      placed [] h = refl
      placed ((j, w) ∷ m) (p, h) = ground (arith, placed m h)

  pub find-entries :
      (n k j : ℕ) (g : ℕ → V) → k ≤ j → j < k + n → find ltb j (entries n k g) ≡ some (g j)
  unfolding find
  find-entries zero k j g h l = absurd (omega arith)
  find-entries (suc n) k j g h l = elim (Bool-cases (k == j)) [
    | inl e ↦ let p : k ≡ j = ground arith in rw (← p, same_self k, find) refl
    | inr e ↦
        let p : k < j = ground arith in
        rw (same_lt k j p, find) (find-entries n (suc k) j g p (omega arith))
  ]

  pub find-entries_value :
      (n k j : ℕ) (g : ℕ → V) (x : V) → find ltb j (entries n k g) ≡ some x → x ≡ g j
  unfolding find
  find-entries_value zero k j g x e = cc
  find-entries_value (suc n) k j g x e = elim (Bool-cases (same ltb j k)) [
    | inl h ↦
        let p : j ≡ k = ground (arith, h) in
        let q : g k ≡ x = some-injective _ _ (rw (h, find) at e) in cc
    | inr h ↦ find-entries_value n (suc k) j g x (rw (h, find) at e)
  ]
