-- ===== src/Log/Shared/Lines.antt =====
-- The file that the threads share, as a sequence of whole lines.
use mathlib.Core.Path.{subst}
use mathlib.Core.List.{append_assoc, append-nil}
use one_fass.Base.{
  ==_iff, ◌&&◌, inr, inl, ◌⊎◌, leb, ℕ, ◌==◌, true, false, Option, none, some, List, [], ◌∷◌, ◌++◌,
  ◌≡◌, ◌≢◌, ◌∙◌, sym, ap, refl, Bool-cases, arith,
}
use one_fass.Text.{Text}
use one_fass.Log.{level_of, MessageType, log_line}
use one_fass.VmPool.Nodes.{concat}
use one_fass.Log.Shared.{
  LogCall, pieces, LogAt, outside, entered, writing, leaving, FileLogTs, move, LogStep, log_lock,
  log_skip, log_closed, log_open, log_write, log_close, log_unlock, LogSteps, log_start, log_next,
}

-- The specification: the calls one after the other, each at once.
abbrev or_empty : Option Text → Text
or_empty none = []
or_empty (some t) = t

abbrev line_of : MessageType → LogCall → Text
line_of level c = or_empty (log_line level c.opens c.time c.module_name c.type c.message)

abbrev pub log_text : MessageType → List LogCall → Text
log_text level [] = []
log_text level (c ∷ cs) = log_text level cs ++ line_of level c

-- What the thread is still to write.
abbrev rest : MessageType → LogAt → Text
rest level outside = []
rest level (entered c) = line_of level c
rest level (writing ps) = concat ps
rest level leaving = []

-- The thread `i` has the mutex, the others are outside, and what it is still to write completes the file.
abbrev IsHeld : MessageType → FileLogTs → ℕ → Type 0
IsHeld level s i =
    (s.log_mutex ≡ some i)
    × ((j : ℕ) → j ≢ i → s.at j ≡ outside)
    × (s.file ++ rest level (s.at i) ≡ log_text level s.calls)

abbrev IsLogged : MessageType → FileLogTs → Type 0
IsLogged level s =
    ((s.log_mutex ≡ none) × ((j : ℕ) → s.at j ≡ outside) × (s.file ≡ log_text level s.calls))
    ⊎ ((i : ℕ) × IsHeld level s i)

move_same : (i : ℕ) (p : LogAt) (at : ℕ → LogAt) → move i p at i ≡ p
move_same i p at = ground arith

move_other : (i j : ℕ) (p : LogAt) (at : ℕ → LogAt) → j ≢ i → move i p at j ≡ at j
move_other i j p at h = ground arith

line_opened :
    (level : MessageType) (c : LogCall)
    → leb (level_of c.type) (level_of level) ≡ true
    → c.opens ≡ true
    → concat (pieces c) ≡ line_of level c
unfolding log_line
line_opened level c allowed opens = rw (allowed, opens) refl

line_skipped :
    (level : MessageType) (c : LogCall)
    → (leb (level_of c.type) (level_of level) && c.opens) ≡ false
    → line_of level c ≡ []
unfolding log_line
line_skipped level c h = rw h refl

module _ (level : MessageType) where
  -- A thread that is inside has the mutex.
  holder :
      (s : FileLogTs) (i : ℕ) {p : LogAt}
      → IsLogged level s
      → s.at i ≡ p
      → p ≢ outside
      → IsHeld level s i
  holder s i (inl (free, out, text)) e inside = absurd (inside (sym e ∙ out i))
  holder s i (inr (k, (has, out, text))) e inside = elim (Bool-cases (i == k)) [
    | inl same ↦ subst (IsHeld level s) (sym ((==_iff i k).0 same)) (has, out, text)
    | inr other ↦ absurd (inside (sym e ∙ out i (λ q. ground arith)))
  ]

  -- It goes on, and what it has written with what it is still to write stays the same.
  go_on :
      (s : FileLogTs) (i : ℕ) (p q : LogAt) (file : Text)
      → IsLogged level s
      → s.at i ≡ p
      → p ≢ outside
      → file ++ rest level q ≡ s.file ++ rest level p
      → IsLogged level (record s { at = move i q s.at; file = file })
  go_on s i p q file h e inside same =
      let (has, out, text) = holder s i h e inside in
      inr (
        i,
        (
          has,
          λ j other. move_other i j q s.at other ∙ out j other,
          ap (λ a. file ++ rest level a) (move_same i q s.at)
              ∙ same
              ∙ ap (λ a. s.file ++ rest level a) (sym e)
              ∙ text,
        ),
      )

  LogStep-IsLogged : {s t : FileLogTs} → LogStep level s t → IsLogged level s → IsLogged level t
  LogStep-IsLogged {s} (log_lock i c e free) (inl (none_has, out, text)) = inr (
    i,
    (
      refl,
      λ j other. move_other i j (entered c) s.at other ∙ out j,
      ap (λ a. s.file ++ rest level a) (move_same i (entered c) s.at)
          ∙ ap (λ a. a ++ line_of level c) text,
    ),
  )
  LogStep-IsLogged {s} (log_lock i c e free) (inr (k, (has, out, text))) = cc
  LogStep-IsLogged {s} (log_skip i c e low) h =
      go_on s i (entered c) leaving s.file h e (λ q. cc)
        (rw (line_skipped level c (rw low refl)) refl)
  LogStep-IsLogged {s} (log_closed i c e low closed) h =
      go_on s i (entered c) leaving s.file h e (λ q. cc)
        (rw (line_skipped level c (rw (low, closed) refl)) refl)
  LogStep-IsLogged {s} (log_open i c e low opens) h =
      go_on s i (entered c) (writing (pieces c)) s.file h e (λ q. cc)
        (ap (s.file ++◌) (line_opened level c low opens))
  LogStep-IsLogged {s} (log_write i p ps e) h =
      go_on s i (writing (p ∷ ps)) (writing ps) (s.file ++ p) h e (λ q. cc)
        (append_assoc s.file p (concat ps))
  LogStep-IsLogged {s} (log_close i e) h = go_on s i (writing []) leaving s.file h e (λ q. cc) refl
  LogStep-IsLogged {s} (log_unlock i e) h =
      let (has, out, text) = holder s i h e (λ q. cc) in
      inl (
        refl,
        λ j. elim (Bool-cases (j == i)) [
          | inl same ↦ ap (move i outside s.at) ((==_iff j i).0 same) ∙ move_same i outside s.at
          | inr other ↦ move_other i j outside s.at (λ q. ground arith) ∙ out j (λ q. ground arith)
        ],
        sym (append-nil s.file) ∙ ap (λ a. s.file ++ rest level a) (sym e) ∙ text,
      )

  LogSteps-IsLogged : {s : FileLogTs} → LogSteps level s → IsLogged level s
  LogSteps-IsLogged log_start = inl (refl, (λ j. refl), refl)
  LogSteps-IsLogged (log_next r st) = LogStep-IsLogged st (LogSteps-IsLogged r)

  -- Whatever the threads do at once, the file is at each time the whole lines of the calls in the order
  -- in which they have taken the mutex, as if each had been made alone, but for an end that the
  -- thread that has the mutex is still to write; if no thread has it, nothing is missing.
  pub LogSteps-lines :
      {s : FileLogTs}
      → LogSteps level s
      → (missing : Text) × (s.file ++ missing ≡ log_text level s.calls)
        × (s.log_mutex ≡ none → missing ≡ [])
  LogSteps-lines {s} r = elim (LogSteps-IsLogged r) [
    | inl (free, out, text) ↦ ([], append-nil s.file ∙ text, λ e. refl)
    | inr (i, (has, out, text)) ↦ (rest level (s.at i), text, λ e. cc)
  ]
