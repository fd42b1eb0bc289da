-- ===== src/Text/Find.antt =====
-- What `find` returns, and how the edits at that place read.
use one_fass.Base.{
  ◌+◌, suc, inr, inl, Bool-cases, ℕ, true, false, some, [], ◌∷◌, ◌++◌, length, ◌≡◌, refl, arith,
  take-append_self, drop-append_self, length-append,
}
use mathlib.Core.List.{append_assoc}
use one_fass.Text.{Text, is_prefix, find?, erase, insert}

-- The pattern does not begin inside `s`, also where it would run over into the text `t` behind.
abbrev pub IsBefore : Text → Text → Text → Type 0
IsBefore p [] t = Unit
IsBefore p (c ∷ s) t = (is_prefix p (c ∷ (s ++ t)) ≡ false) × IsBefore p s t

pub is_prefix-append : (p t : Text) → is_prefix p (p ++ t) ≡ true
is_prefix-append [] t = refl
is_prefix-append (c ∷ p) t = ground (arith, is_prefix-append p t)

pub find?-here : (p s : Text) → is_prefix p s ≡ true → find? p s ≡ some 0
unfolding find?
find?-here p [] h = rw h
find?-here p (c ∷ s) h = rw h

-- The first occurrence is found.
pub find?_first : (p s t : Text) → IsBefore p s (p ++ t) → find? p (s ++ (p ++ t)) ≡ some (length s)
unfolding find?
find?_first p [] t h = find?-here p (p ++ t) (is_prefix-append p t)
find?_first p (c ∷ s) t (no_prefix, h) = rw (no_prefix, find?_first p s t h)

pub erase_at : (s m t : Text) → erase (length s) (length m) (s ++ (m ++ t)) ≡ some (s ++ t)
unfolding erase
erase_at s m t =
    rw (take-append_self s (m ++ t), drop-append_self s (m ++ t), drop-append_self m t)
      (ground (arith, length-append s (m ++ t)))

pub insert_at : (s m t : Text) → insert (length s) m (s ++ t) ≡ some (s ++ (m ++ t))
unfolding insert
insert_at s m t =
    rw (take-append_self s t, drop-append_self s t) (ground (arith, length-append s t))

-- A text that holds the pattern has a first place of it.
pub find?_somewhere : (p s t : Text) → (i : ℕ) × (find? p (s ++ (p ++ t)) ≡ some i)
unfolding find?
find?_somewhere p [] t = (0, find?-here p (p ++ t) (is_prefix-append p t))
find?_somewhere p (c ∷ s) t =
    let (i, e) = find?_somewhere p s t in
    elim (Bool-cases (is_prefix p (c ∷ (s ++ (p ++ t))))) [
      | inl h ↦ (0, rw h)
      | inr h ↦ (suc i, rw (h, e))
    ]

pub insert_behind :
    (s m p t : Text) → insert (length s + length p) m (s ++ (p ++ t)) ≡ some (s ++ (p ++ (m ++ t)))
insert_behind s m p t =
    rw (← length-append s p, ← append_assoc s p t, ← append_assoc s p (m ++ t))
      (insert_at (s ++ p) m t)
