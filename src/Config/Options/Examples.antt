-- ===== src/Config/Options/Examples.antt =====
-- A fassd.conf that sets one option.
use mathlib.Core.Path.{subst}
use mathlib.Core.Option.{some-injective}
use one_fass.Base.{
  ℤ, pos, true, Option, none, some, [], ◌∷◌, ◌≡◌, refl, All, arith, inl, inr, Bool-cases,
  if◌then◌else◌,
}
use one_fass.Text.{Text, codes, eq_text}
use one_fass.Config.Options.{
  Any, int, Parsed, load_configuration, get_option_type, options, lookup, or_default, get_option,
  is_int,
}
use one_fass.Config.Options.Reads.{IsTyped, IsFound, reads, load_configuration-IsFound}

eq_text_sound : (s t : Text) → eq_text s t ≡ true → s ≡ t
eq_text_sound [] [] e = refl
eq_text_sound [] (d ∷ t) e = cc
eq_text_sound (c ∷ s) [] e = cc
eq_text_sound (c ∷ s) (d ∷ t) e = ground (arith, eq_text_sound s t)

abbrev file : Parsed
file name = if eq_text name (codes "pm.n_periods") then some (int (pos 5)) else none

int_of :
    (n m : ℤ) (v d : Any)
    → some (int n) ≡ some v
    → some (int m) ≡ some d
    → get_option_type v ≡ get_option_type d
int_of n m v d e h = rw (← some-injective _ _ e, ← some-injective _ _ h)

file-IsTyped : IsTyped file
file-IsTyped name v d e h = elim (Bool-cases (eq_text name (codes "pm.n_periods"))) [
  | inr other_name ↦ let wrong = rw other_name at e in cc
  | inl same ↦
      int_of (pos 5) (pos 3) v d (rw same at e)
        (subst (λ n. lookup n options ≡ some d) (eq_text_sound name (codes "pm.n_periods") same) h)
]

abbrev loaded : Text → Option Any
loaded name = or_default (file name) (lookup name options)

loaded_run : load_configuration (some file) ≡ some loaded
unfolding load_configuration
loaded_run = refl

load_configuration-IsFound_example : All (IsFound loaded) reads
load_configuration-IsFound_example = load_configuration-IsFound file file-IsTyped loaded_run

n_periods_test : get_option is_int loaded (codes "pm") (codes "n_periods") ≡ some (int (pos 5))
unfolding get_option
n_periods_test = refl
