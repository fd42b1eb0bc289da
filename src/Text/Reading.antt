-- ===== src/Text/Reading.antt =====
-- `std::istringstream >> std::dec >> value` for a signed integer: leading white space, a sign, and
-- digits up to the first other character; no digit, or a value out of range, sets the fail bit.
use one_fass.Base.{
  ℕ, zero, suc, ◌+◌, ◌*◌, ◌-◌, ℤ, pos, negsuc, Bool, true, false, ◌&&◌, ◌||◌, Option, none, some,
  [], ◌∷◌, ltb, leb, ◌==◌, if◌then◌else◌, ◌≡◌, refl,
}
use one_fass.Text.{Text, codes}

is_space : ℕ → Bool
is_space c = c == 32 || (leb 9 c && leb c 13)

is_digit : ℕ → Bool
is_digit c = leb 48 c && leb c 57

skip_space : Text → Text
unfolding is_space
skip_space [] = []
skip_space (c ∷ s) = let rest = skip_space s in if is_space c then rest else c ∷ s

-- The value of the digits, if there is one at least.
take_digits : ℕ → Text → ℕ
unfolding is_digit
take_digits acc [] = acc
take_digits acc (c ∷ s) =
    let rest = take_digits (acc * 10 + (c - 48)) s in if is_digit c then rest else acc

read_ℕ : Text → Option ℕ
unfolding take_digits is_digit
read_ℕ [] = none
read_ℕ (c ∷ s) = if is_digit c then some (take_digits 0 (c ∷ s)) else none

-- `limit` is 2 ^ 31 for an `int` and 2 ^ 63 for an `int64_t`.
in_range : ℕ → Bool → Option ℕ → Option ℤ
in_range limit negative none = none
in_range limit true (some zero) = some (pos 0)
in_range limit true (some (suc n)) = if leb (suc n) limit then some (negsuc n) else none
in_range limit false (some n) = if ltb n limit then some (pos n) else none

read_signed : ℕ → Text → Option ℤ
unfolding read_ℕ in_range
read_signed limit [] = none
read_signed limit (c ∷ s) =
    if c == b'-'
    then in_range limit true (read_ℕ s)
    else if c == b'+'
    then in_range limit false (read_ℕ s)
    else in_range limit false (read_ℕ (c ∷ s))

unfoldable pub read_int : ℕ → Text → Option ℤ
unfolding read_signed skip_space
read_int limit s = read_signed limit (skip_space s)

reads_number : read_int 1000 (codes " -42x") ≡ some (negsuc 41)
unfolding read_int
reads_number = refl

reads_no_number : read_int 1000 (codes "x42") ≡ none
unfolding read_int
reads_no_number = refl
