-- ===== src/Base/Int.antt =====
-- Signed integers over the native numbers: C++ `int` and `int64_t` as long as nothing overflows,
-- which for a signed type has no defined result.
use Prim.Native.Nat.{◌^◌, ◌%◌, ℕ, suc, ◌+◌, ◌-◌, ◌*◌, ◌≤◌}
use mathlib.Core.Path.{refl, ◌≡◌}
use mathlib.Core.Bool.{Bool}
use native.Mathlib.Omega.{arith}
use native.Mathlib.Nat.{mul_comm, add_comm, mul-le-mul, le_refl}
use one_fass.Base.Tests.{ltb, leb, ◌==◌, if◌then◌else◌}

-- `negsuc n` is -(n + 1).
pub data ℤ : Type 0 where
  pos : ℕ → ℤ
  negsuc : ℕ → ℤ

abbrev pub pos_part : ℤ → ℕ
pos_part (pos n) = n
pos_part (negsuc n) = 0

abbrev pub neg_part : ℤ → ℕ
neg_part (pos n) = 0
neg_part (negsuc n) = suc n

-- a - b, as an integer.
abbrev pub sub_ℕ : ℕ → ℕ → ℤ
sub_ℕ a b = if leb b a then pos (a - b) else negsuc (b - a - 1)

infixl 65 ◌+ℤ◌ ◌-ℤ◌
infixl 70 ◌*ℤ◌
infix 50 ◌≤ℤ◌ ◌<ℤ◌ ◌==ℤ◌
unfoldable pub ◌+ℤ◌ : ℤ → ℤ → ℤ
a +ℤ b = sub_ℕ (pos_part a + pos_part b) (neg_part a + neg_part b)

unfoldable pub ◌-ℤ◌ : ℤ → ℤ → ℤ
a -ℤ b = sub_ℕ (pos_part a + neg_part b) (neg_part a + pos_part b)

unfoldable pub ◌*ℤ◌ : ℤ → ℤ → ℤ
a *ℤ b =
    sub_ℕ (pos_part a * pos_part b + neg_part a * neg_part b)
      (pos_part a * neg_part b + neg_part a * pos_part b)

abbrev pub ◌≤ℤ◌ : ℤ → ℤ → Type 0
a ≤ℤ b = pos_part a + neg_part b ≤ pos_part b + neg_part a

abbrev pub ◌<ℤ◌ : ℤ → ℤ → Type 0
a <ℤ b = suc (pos_part a + neg_part b) ≤ pos_part b + neg_part a

abbrev pub ltb_ℤ : ℤ → ℤ → Bool
ltb_ℤ a b = ltb (pos_part a + neg_part b) (pos_part b + neg_part a)

abbrev pub ◌==ℤ◌ : ℤ → ℤ → Bool
a ==ℤ b = pos_part a + neg_part b == pos_part b + neg_part a

pub +ℤ_parts :
    (a b : ℤ)
    → pos_part (a +ℤ b) + neg_part a + neg_part b ≡ neg_part (a +ℤ b) + pos_part a + pos_part b
unfolding ◌+ℤ◌
+ℤ_parts a b = ground arith

pub -ℤ_parts :
    (a b : ℤ)
    → pos_part (a -ℤ b) + neg_part a + pos_part b ≡ neg_part (a -ℤ b) + pos_part a + neg_part b
unfolding ◌-ℤ◌
-ℤ_parts a b = ground arith

pub eq_of_parts : (a b : ℤ) → pos_part a + neg_part b ≡ pos_part b + neg_part a → a ≡ b
eq_of_parts a b h = ground arith

pub ruleset int_laws = (arith, +ℤ_parts, -ℤ_parts, eq_of_parts)

pub *ℤ_parts :
    (a b : ℤ)
    → pos_part (a *ℤ b) + (pos_part a * neg_part b + neg_part a * pos_part b)
      ≡ neg_part (a *ℤ b) + (pos_part a * pos_part b + neg_part a * neg_part b)
unfolding ◌*ℤ◌
*ℤ_parts a b = ground arith

pub *ℤ_nonneg : (a b : ℤ) → pos 0 ≤ℤ a → pos 0 ≤ℤ b → pos 0 ≤ℤ a *ℤ b
unfolding ◌*ℤ◌
*ℤ_nonneg (pos a) (pos b) h k = ground arith
*ℤ_nonneg (pos a) (negsuc b) h k = absurd (omega arith)
*ℤ_nonneg (negsuc a) b h k = absurd (omega arith)

pub *ℤ_mono : (c a b : ℤ) → pos 0 ≤ℤ c → a ≤ℤ b → c *ℤ a ≤ℤ c *ℤ b
*ℤ_mono (pos c) a b h k =
    omega (arith, *ℤ_parts (pos c) a, *ℤ_parts (pos c) b, mul-le-mul (le_refl c) k)
*ℤ_mono (negsuc c) a b h k = absurd (omega arith)

pub *ℤ_mono_left : (j k : ℕ) (p : ℤ) → j ≤ k → pos 0 ≤ℤ p → pos j *ℤ p ≤ℤ pos k *ℤ p
*ℤ_mono_left j k (pos p) h n =
    omega (arith, *ℤ_parts (pos j) (pos p), *ℤ_parts (pos k) (pos p), mul-le-mul h (le_refl p))
*ℤ_mono_left j k (negsuc p) h n = absurd (omega arith)

pub -ℤ_antitone : (a b c : ℤ) → b ≤ℤ c → a -ℤ c ≤ℤ a -ℤ b
-ℤ_antitone a b c h = omega int_laws

pub pos_part_sub_mono : (a b c : ℤ) → a ≤ℤ b → pos_part (a -ℤ c) ≤ pos_part (b -ℤ c)
unfolding ◌-ℤ◌
pos_part_sub_mono a b c h = ground arith

pub *ℤ_comm : (a b : ℤ) → a *ℤ b ≡ b *ℤ a
unfolding ◌*ℤ◌
*ℤ_comm a b = rw (
  mul_comm (pos_part a) (pos_part b),
  mul_comm (neg_part a) (neg_part b),
  mul_comm (pos_part a) (neg_part b),
  mul_comm (neg_part a) (pos_part b),
  add_comm (neg_part b * pos_part a) (pos_part b * neg_part a),
)

pub mono_*ℤ : (c a b : ℤ) → pos 0 ≤ℤ c → a ≤ℤ b → a *ℤ c ≤ℤ b *ℤ c
mono_*ℤ c a b h k = rw (*ℤ_comm a c, *ℤ_comm b c) (*ℤ_mono c a b h k)

-- The value of the low 32 bits, read as an `int`, and of the low 16, read as an `unsigned short`.
unfoldable pub narrow_int : ℤ → ℤ
narrow_int (pos n) = let m = n % 2 ^ 32 in if ltb m (2 ^ 31) then pos m else negsuc (2 ^ 32 - m - 1)
narrow_int (negsuc n) =
    let m = n % 2 ^ 32 in if ltb m (2 ^ 31) then negsuc m else pos (2 ^ 32 - m - 1)

unfoldable pub to_ushort : ℤ → ℕ
to_ushort (pos n) = n % 2 ^ 16
to_ushort (negsuc n) = 2 ^ 16 - 1 - n % 2 ^ 16

narrows : (narrow_int (pos (2 ^ 31)) ≡ negsuc (2 ^ 31 - 1)) × (to_ushort (negsuc 0) ≡ 65535)
unfolding narrow_int to_ushort
narrows = (refl, refl)
