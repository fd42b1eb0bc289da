-- ===== src/Threads/Owner.antt =====
-- Who owns the mutex.
use mathlib.Core.Option.{some-injective}
use one_fass.Base.{sym, ◌∙◌, ℕ, true, some, ◌≡◌, arith}
use one_fass.Threads.{
  Thread, terminator, priority_manager, daemon, Daemon, Conditions, Step, Steps, here, later,
  Reachable, holds, started, tm_enter, tm_leave, tm_lock, tm_sleep, tm_wake, tm_go, tm_call,
  tm_return, tm_fail, tm_round, pm_enter, pm_leave, pm_call, pm_return, pm_fail, main_signal,
  main_lock, main_unlock, main_finalize, main_rejoin, main_join, tm_holds, pm_holds, main_holds,
}

-- A thread behind a lock owns the mutex.
pub record IsOwned (s : Daemon) : Type 0 where
  pub tm_owns : tm_holds s.tm ≡ true → s.owner ≡ some terminator
  pub pm_owns : pm_holds s.pm ≡ true → s.owner ≡ some priority_manager
  pub main_owns : main_holds s.main ≡ true → s.owner ≡ some daemon

pub Step-IsOwned :
    {users : ℕ} {w : Conditions} {s t : Daemon} → Step users w s t → IsOwned s → IsOwned t
Step-IsOwned (tm_enter p q) o = ground arith
Step-IsOwned (tm_leave p q) o = ground arith
Step-IsOwned (tm_lock p q) o = ground arith
Step-IsOwned (tm_sleep p q) o = ground arith
Step-IsOwned (tm_wake timed_out p q) o = ground arith
Step-IsOwned (tm_go wait p q) o = ground arith
Step-IsOwned (tm_call n p q) o = ground arith
Step-IsOwned (tm_return n p) o = ground arith
Step-IsOwned (tm_fail n q p) o = ground arith
Step-IsOwned (tm_round p) o = ground arith
Step-IsOwned (pm_enter p q) o = ground arith
Step-IsOwned (pm_leave p q) o = ground arith
Step-IsOwned (pm_call p q) o = ground arith
Step-IsOwned (pm_return p) o = ground arith
Step-IsOwned (pm_fail q p) o = ground arith
Step-IsOwned (main_signal p) o = ground arith
Step-IsOwned (main_lock p q) o = ground arith
Step-IsOwned (main_unlock p) o = ground arith
Step-IsOwned (main_finalize p q) o = ground arith
Step-IsOwned (main_rejoin p q) o = ground arith
Step-IsOwned (main_join p q r) o = ground arith

pub Steps-IsOwned :
    {users : ℕ} {w : Conditions} {s t : Daemon} → IsOwned s → Steps users w s t → IsOwned t
Steps-IsOwned o here = o
Steps-IsOwned o (later r st) = Step-IsOwned st (Steps-IsOwned o r)

pub started-IsOwned : IsOwned started
started-IsOwned = record { tm_owns = λ h. cc; pm_owns = λ h. cc; main_owns = λ h. cc }

-- In every state that can be reached, whatever fails, at most one thread is behind a lock of the
-- mutex that it will give back: the terminator in `kill_running`, or in its wait between the lock
-- and the unlock but for `pthread_cond_timedwait`; the priority manager in `kill_pending`; or the
-- daemon in `finalize`, where it sets the flag of the terminator.
pub exclusive :
    {users : ℕ} {w : Conditions} {s : Daemon}
    → Reachable users w s
    → (th other : Thread) → holds th s ≡ true
    → holds other s ≡ true
    → th ≡ other
exclusive {s} r th other h k = same th other h k
  where
    o : IsOwned s
    o = Steps-IsOwned started-IsOwned r

    owns : (th : Thread) → holds th s ≡ true → s.owner ≡ some th
    owns terminator h = o.tm_owns h
    owns priority_manager h = o.pm_owns h
    owns daemon h = o.main_owns h

    same : (th other : Thread) → holds th s ≡ true → holds other s ≡ true → th ≡ other
    same th other h k = some-injective _ _ (sym (owns th h) ∙ owns other k)
