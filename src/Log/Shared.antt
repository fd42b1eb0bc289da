-- ===== src/Log/Shared.antt =====
-- include/Log.h with `FileLogTS`, and include/FassLog.h, which passes each call on to one object of it:
-- the threads of the daemon, however many, append to one file, a piece of a line at a time.
pub mod Lines
mod Examples
use one_fass.Base.{
  ℕ, ◌==◌, Bool, true, false, leb, Option, none, some, List, [], ◌∷◌, ◌++◌, ◌≡◌, if◌then◌else◌,
}
use one_fass.Outcome.{Outcome, done, throws}
use one_fass.Text.{Text, codes}
use one_fass.Log.{MessageType, level_of, error_name}

-- A call of `log`, and what it meets: whether the file opens for it, and the time.
pub record LogCall : Type 0 where
  pub module_name : Text
  pub type : MessageType
  pub message : Text
  pub opens : Bool
  pub time : Text

-- What `FileLog::log` hands to the stream, in this order.
abbrev pub pieces : LogCall → List Text
pieces c =
    c.time
    ∷ codes " "
    ∷ codes "["
    ∷ c.module_name
    ∷ codes "]"
    ∷ codes "["
    ∷ error_name c.type
    ∷ codes "]: "
    ∷ c.message
    ∷ codes "\n"
    ∷ []

-- Where a thread is: outside; behind the lock, before the test of the level; with the file open and the
-- pieces that are still to be written; or before the unlock.
pub data LogAt : Type 0 where
  outside : LogAt
  entered : LogCall → LogAt
  writing : List Text → LogAt
  leaving : LogAt

-- `calls` are the calls that have taken the mutex, the latest first.
pub record FileLogTs : Type 0 where
  pub log_mutex : Option ℕ
  pub at : ℕ → LogAt
  pub file : Text
  pub calls : List LogCall

abbrev pub move : ℕ → LogAt → (ℕ → LogAt) → ℕ → LogAt
move i place at j = if j == i then place else at j

-- The file that `init_log_system` opens is emptied.
abbrev pub opened : FileLogTs
opened = record { log_mutex = none; at = λ i. outside; file = []; calls = [] }

-- `init_log_system`, with the constructor of `FileLog`.
abbrev pub init_log_system : Bool → Outcome FileLogTs
init_log_system true = done opened
init_log_system false = throws

-- A step of the thread `i` at a log level.
pub data LogStep (level : MessageType) (s : FileLogTs) : FileLogTs → Type 0 where
  log_lock :
      (i : ℕ) (c : LogCall)
      → s.at i ≡ outside
      → s.log_mutex ≡ none
      → LogStep level s
          (record s { log_mutex = some i; at = move i (entered c) s.at; calls = c ∷ s.calls })
  log_skip :
      (i : ℕ) (c : LogCall)
      → s.at i ≡ entered c
      → leb (level_of c.type) (level_of level) ≡ false
      → LogStep level s (record s { at = move i leaving s.at })
  log_closed :
      (i : ℕ) (c : LogCall)
      → s.at i ≡ entered c
      → leb (level_of c.type) (level_of level) ≡ true
      → c.opens ≡ false
      → LogStep level s (record s { at = move i leaving s.at })
  log_open :
      (i : ℕ) (c : LogCall)
      → s.at i ≡ entered c
      → leb (level_of c.type) (level_of level) ≡ true
      → c.opens ≡ true
      → LogStep level s (record s { at = move i (writing (pieces c)) s.at })
  log_write :
      (i : ℕ) (p : Text) (ps : List Text)
      → s.at i ≡ writing (p ∷ ps)
      → LogStep level s (record s { at = move i (writing ps) s.at; file = s.file ++ p })
  log_close :
      (i : ℕ) → s.at i ≡ writing [] → LogStep level s (record s { at = move i leaving s.at })
  log_unlock :
      (i : ℕ)
      → s.at i ≡ leaving
      → LogStep level s (record s { log_mutex = none; at = move i outside s.at })

pub data LogSteps (level : MessageType) : FileLogTs → Type 0 where
  log_start : LogSteps level opened
  log_next : {s t : FileLogTs} → LogSteps level s → LogStep level s t → LogSteps level t
