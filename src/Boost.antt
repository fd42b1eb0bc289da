-- ===== src/Boost.antt =====
-- The parts of boost that the program calls, as a parameter: `split` at one separator and the casts of
-- `lexical_cast`, which throw where this says `none`.
pub mod Sample
use one_fass.Base.{ℕ, ℤ, pos, negsuc, ◌≤ℤ◌, Option, some, List, ◌∷◌, ◌≡◌, All}
use one_fass.Text.{Text}
use one_fass.Text.Split.{join, Lacks}

pub record Boost (F : Type 0) : Type 0 where
  pub split : ℕ → Text → List Text
  pub cast_int16 : Text → Option ℤ
  pub cast_int64 : Text → Option ℤ
  pub cast_float : Text → Option F

-- What is documented: splitting gives back the tokens that were joined, if none holds the separator.
pub record IsBoost {F : Type 0} (b : Boost F) : Type 0 where
  pub split_joined :
      (sep : ℕ) (w : Text) (ws : List Text)
      → Lacks sep w
      → All (Lacks sep) ws
      → b.split sep (join sep (w ∷ ws)) ≡ w ∷ ws
