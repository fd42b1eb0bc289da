-- ===== src/Manager.antt =====
-- include/Manager.h and the loops `pm_loop` of src/pm/PriorityManager.cc and `tm_loop` of
-- src/terminator/Terminator.cc: a thread that waits on a condition variable between its rounds, and
-- `finalize`, which another thread calls.
pub mod Stopping
mod Examples
use one_fass.Base.{ℕ, suc, Bool, true, false, not, ◌&&◌, ◌≡◌}

-- Where the thread is: at the test of the outer loop; at the test of the inner one, which holds the
-- mutex and has the value of `wait`; in `pthread_cond_timedwait`, without the mutex; in the round; or
-- at its end.
pub data Phase : Type 0 where
  top : Phase
  holding : Bool → Phase
  waiting : Phase
  running : Phase
  ended : Phase

pub record Loop : Type 0 where
  pub phase : Phase
  pub stop_manager : Bool
  pub rounds : ℕ

abbrev pub has_mutex : Phase → Bool
has_mutex top = false
has_mutex (holding wait) = true
has_mutex waiting = false
has_mutex running = false
has_mutex ended = false

-- One step of the thread, or a call of `finalize`. The wait ends when its time is up, or earlier: after
-- a signal, or for no reason.
pub data Step : Loop → Loop → Type 0 where
  enter :
      (l : Loop)
      → l.phase ≡ top
      → l.stop_manager ≡ false
      → Step l (record l { phase = holding true })
  leave : (l : Loop) → l.phase ≡ top → l.stop_manager ≡ true → Step l (record l { phase = ended })
  sleep :
      (l : Loop)
      → l.phase ≡ holding true
      → l.stop_manager ≡ false
      → Step l (record l { phase = waiting })
  wake :
      (l : Loop) (timed_out : Bool)
      → l.phase ≡ waiting
      → Step l (record l { phase = holding (not timed_out) })
  go :
      (l : Loop) (wait : Bool)
      → l.phase ≡ holding wait
      → (wait && not l.stop_manager) ≡ false
      → Step l (record l { phase = running })
  round : (l : Loop) → l.phase ≡ running → Step l (record l { phase = top; rounds = suc l.rounds })
  finalize : (l : Loop) → has_mutex l.phase ≡ false → Step l (record l { stop_manager = true })

pub data Steps (l : Loop) : Loop → Type 0 where
  here : Steps l l
  next : {m n : Loop} → Steps l m → Step m n → Steps l n
