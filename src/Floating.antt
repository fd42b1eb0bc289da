-- ===== src/Floating.antt =====
-- The arithmetic on `float` and `double` that the program does, as a parameter: there are no floats
-- to compute with, so the types, their operations and the laws that the theorems need are fields.
use one_fass.Base.{
  negsuc, pos_part, ℤ, pos, ◌+ℤ◌, ◌-ℤ◌, ◌*ℤ◌, ◌≤ℤ◌, *ℤ_mono, *ℤ_nonneg, ltb_ℤ, Bool, arith,
  int_laws, ◌==ℤ◌,
}
use one_fass.Text.{Text}
use one_fass.Text.Decimal.{dec}

pub record Floating : Type 1 where
  pub F : Type 0
  pub D : Type 0
  -- float
  pub f_of_int : ℤ → F
  pub f_zero : F
  pub half : F
  pub f_add : F → F → F
  pub f_mul : F → F → F
  pub f_div : F → F → F
  pub f_is_zero : F → Bool
  pub f_gt : F → F → Bool
  pub f_to_int : F → ℤ
  -- double
  pub d_of_int : ℤ → D
  pub widen : F → D
  pub narrow : D → F
  pub d_add : D → D → D
  pub d_mul : D → D → D
  pub d_div : D → D → D
  pub d_neg : D → D
  pub d_is_zero : D → Bool
  pub pow2 : D → D
  pub d_to_int : D → ℤ
  -- what `lexical_cast<string>` makes of a float, and what a stream writes for it
  pub f_write : F → Text
  pub f_stream : F → Text

-- Rounding to nearest keeps the order of exact results, and so do the conversions. The order `le` is
-- `<=` on doubles; a conversion to `int64_t` is defined only in range.
pub record IsRounded (f : Floating) : Type 1 where
  pub le : f.D → f.D → Type 0
  pub in_range : f.D → Type 0
  pub nonneg : f.F → Type 0
  pub le_refl : (x : f.D) → le x x
  pub d_add_mono : (x y u v : f.D) → le x y → le u v → le (f.d_add x u) (f.d_add y v)
  pub le-d_add :
      (x y : f.D) (c : f.F) (n : ℤ)
      → le x y
      → nonneg c
      → pos 0 ≤ℤ n
      → le x (f.d_add y (f.widen (f.f_mul c (f.f_of_int n))))
  pub scale_mono :
      (c : f.F) (m n : ℤ)
      → nonneg c
      → m ≤ℤ n
      → le (f.widen (f.f_mul c (f.f_of_int m))) (f.widen (f.f_mul c (f.f_of_int n)))
  pub d_to_int_mono : (x y : f.D) → in_range x → in_range y → le x y → f.d_to_int x ≤ℤ f.d_to_int y

-- Whole numbers satisfy the laws.
abbrev pub whole : Floating
whole = record {
  F = ℤ;
  D = ℤ;
  f_of_int = λ n. n;
  f_zero = pos 0;
  half = pos 1;
  f_add = ◌+ℤ◌;
  f_mul = ◌*ℤ◌;
  f_div = λ a b. a;
  f_is_zero = λ a. a ==ℤ pos 0;
  f_gt = λ a b. ltb_ℤ b a;
  f_to_int = λ a. a;
  d_of_int = λ n. n;
  widen = λ a. a;
  narrow = λ a. a;
  d_add = ◌+ℤ◌;
  d_mul = ◌*ℤ◌;
  d_div = λ a b. a;
  d_neg = λ a. pos 0 -ℤ a;
  d_is_zero = λ a. a ==ℤ pos 0;
  pow2 = λ a. pos (pos_part (a -ℤ negsuc 999));
  d_to_int = λ a. a;
  f_write = dec;
  f_stream = dec;
}

abbrev pub whole-IsRounded : IsRounded whole
whole-IsRounded = record {
  le = ◌≤ℤ◌;
  in_range = λ x. Unit;
  nonneg = λ c. pos 0 ≤ℤ c;
  le_refl = λ x. omega arith;
  d_add_mono = λ x y u v h k. omega int_laws;
  le-d_add = λ x y c n h p q. omega (int_laws, *ℤ_nonneg c n p q);
  scale_mono = λ c m n p h. *ℤ_mono c m n p h;
  d_to_int_mono = λ x y p q h. h;
}
