-- ===== src/Text/Decimal.antt =====
-- Decimal numbers as a stream writes them.
use Prim.Native.Nat.{◌/◌, ◌%◌}
use one_fass.Base.{ℕ, zero, suc, ◌+◌, ℤ, pos, negsuc, [], ◌∷◌, ltb, if◌then◌else◌, ◌≡◌, refl}
use one_fass.Text.{Text, codes}

digits_onto : ℕ → ℕ → Text → Text
digits_onto zero n out = out
digits_onto (suc fuel) n out =
    let rest = digits_onto fuel (n / 10) ((48 + n % 10) ∷ out) in
    if ltb n 10 then (48 + n) ∷ out else rest

-- There are at most `n + 1` digits.
unfoldable pub dec_ℕ : ℕ → Text
unfolding digits_onto
dec_ℕ n = digits_onto (suc n) n []

unfoldable pub dec : ℤ → Text
unfolding dec_ℕ
dec (pos n) = dec_ℕ n
dec (negsuc n) = b'-' ∷ dec_ℕ (suc n)

writes_sign : dec (negsuc 20) ≡ codes "-21"
unfolding dec
writes_sign = refl
