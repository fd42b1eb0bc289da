-- ===== src/Rpc/Format.antt =====
-- The expansion of the log format in `log_method_invoked`, against a reading of the format as a list of
-- plain characters and directives.
use mathlib.Core.List.{append-nil, append_assoc}
use one_fass.Base.{ℕ, Bool, false, List, [], ◌∷◌, ◌++◌, ◌==◌, ◌≡◌, refl, All}
use one_fass.Text.{Text}
use one_fass.Client.{Value}
use one_fass.Rpc.{RequestAttributes, log_directive, log_format}

pub data Item : Type 0 where
  plain : ℕ → Item
  directive : ℕ → Item

-- The characters of a format.
abbrev pub print : List Item → Text
print [] = []
print (plain c ∷ items) = c ∷ print items
print (directive d ∷ items) = b'%' ∷ d ∷ print items

-- A plain character is not the sign that begins a directive.
abbrev pub IsPlain : Item → Type 0
IsPlain (plain c) = (c == b'%') ≡ false
IsPlain (directive d) = Unit

module _ (att : RequestAttributes) (method_name : Text) (hidden : ℕ → Bool)
    (params : List Value) where
  abbrev pub meaning : List Item → Text
  meaning [] = []
  meaning (plain c ∷ items) = c ∷ meaning items
  meaning (directive d ∷ items) = log_directive att method_name hidden params d ++ meaning items

  log_format_plain :
      (c : ℕ) (items : List Item) (d : ℕ) (s : Text)
      → (c == b'%') ≡ false
      → log_format att method_name hidden params (c ∷ (print items ++ (d ∷ s)))
        ≡ c ∷ log_format att method_name hidden params (print items ++ (d ∷ s))
  unfolding log_format
  log_format_plain c [] d s h = rw h
  log_format_plain c (plain a ∷ items) d s h = rw h
  log_format_plain c (directive a ∷ items) d s h = rw h

  log_format-append :
      (items : List Item) (d : ℕ) (s : Text)
      → All IsPlain items
      → log_format att method_name hidden params (print items ++ (d ∷ s))
        ≡ meaning items ++ log_format att method_name hidden params (d ∷ s)
  unfolding log_format
  log_format-append [] d s h = refl
  log_format-append (plain c ∷ items) d s (p, h) =
      rw (log_format_plain c items d s p, log_format-append items d s h)
  log_format-append (directive a ∷ items) d s (p, h) = rw (
    log_format-append items d s h,
    append_assoc (log_directive att method_name hidden params a) (meaning items)
        (log_format att method_name hidden params (d ∷ s)),
  )

  -- A format made of directives and of plain characters other than the percent sign: with a
  -- directive at its end it is expanded item by item; with a further character at its end it is
  -- expanded without that character.
  pub log_format-print :
      (items : List Item)
      → All IsPlain items
      → ((d : ℕ)
          → log_format att method_name hidden params (print items ++ (b'%' ∷ d ∷ []))
            ≡ meaning items ++ log_directive att method_name hidden params d)
        × ((c : ℕ)
            → log_format att method_name hidden params (print items ++ (c ∷ [])) ≡ meaning items)
  unfolding log_format
  log_format-print items h = (
    λ d. rw (log_format-append items b'%' (d ∷ []) h) (simp append-nil),
    λ c. rw (log_format-append items c [] h) (simp append-nil),
  )
