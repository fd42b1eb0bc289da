-- ===== src/Text/Split.antt =====
-- `boost::split` at one separator, and joining with it.
use one_fass.Base.{ℕ, List, [], ◌∷◌, ◌++◌, ◌==◌, if◌then◌else◌, ◌≡◌, refl, arith, All, ◌≢◌}
use one_fass.Text.{Text}

abbrev push : ℕ → List Text → List Text
push c [] = (c ∷ []) ∷ []
push c (w ∷ ws) = (c ∷ w) ∷ ws

-- One token for each stretch between separators; the empty text is one empty token.
unfoldable pub split : ℕ → Text → List Text
split sep [] = [] ∷ []
split sep (c ∷ s) = let rest = split sep s in if c == sep then [] ∷ rest else push c rest

unfoldable pub join : ℕ → List Text → Text
join sep [] = []
join sep (w ∷ []) = w
join sep (w ∷ v ∷ ws) = w ++ (sep ∷ join sep (v ∷ ws))

-- The text does not hold the byte.
abbrev pub Lacks : ℕ → Text → Type 0
Lacks c = All (λ d. d ≢ c)

split_word : (sep : ℕ) (w : Text) → Lacks sep w → split sep w ≡ w ∷ []
unfolding split
split_word sep [] h = refl
split_word sep (c ∷ w) (d, h) = ground (arith, split_word sep w h)

split_step : (sep : ℕ) (w s : Text) → Lacks sep w → split sep (w ++ (sep ∷ s)) ≡ w ∷ split sep s
unfolding split
split_step sep [] s h = ground arith
split_step sep (c ∷ w) s (d, h) = ground (arith, split_step sep w s h)

pub split-join :
    (sep : ℕ) (w : Text) (ws : List Text)
    → Lacks sep w
    → All (Lacks sep) ws
    → split sep (join sep (w ∷ ws)) ≡ w ∷ ws
unfolding join
split-join sep w [] h hs = split_word sep w h
split-join sep w (v ∷ ws) h (hv, hs) =
    rw (split_step sep w (join sep (v ∷ ws)) h, split-join sep v ws hv hs)
