-- ===== src/Threads.antt =====
-- The three threads that share the mutex of the terminator: `tm_loop` with `kill_running` and
-- `kill_pending` of src/terminator/Terminator.cc, `pm_loop` of src/pm/PriorityManager.cc, and the end
-- of `start` in src/fass/Fass.cc with `finalize` of include/Manager.h. Their steps interleave in any
-- order; the other mutexes are taken by one call at a time and left out.
pub mod Owner
pub mod Leak
pub mod Ends
mod Examples
use one_fass.Base.{ℕ, zero, suc, Bool, true, false, not, ◌&&◌, Option, none, some, ◌≡◌}

pub data Thread : Type 0 where
  terminator : Thread
  priority_manager : Thread
  daemon : Thread

-- Where `tm_loop` is: at the test of its loop; before the lock of its wait; behind it, with the value
-- of `wait`; in `pthread_cond_timedwait`; in the loop over the users, with the number of those to go; or
-- behind the lock of `kill_running`.
pub data TmAt : Type 0 where
  tm_top : TmAt
  tm_locking : TmAt
  tm_holding : Bool → TmAt
  tm_waiting : TmAt
  serving : ℕ → TmAt
  killing : ℕ → TmAt
  tm_ended : TmAt

-- Where `pm_loop` is: at its test, with the wait behind it and the rest of the round before it; before
-- the lock of `kill_pending`; behind it; or at its end.
pub data PmAt : Type 0 where
  pm_top : PmAt
  calling : PmAt
  clearing : PmAt
  pm_ended : PmAt

-- Where `start` is: in `sigwait`; before the lock of the terminator's `finalize`; behind it; before
-- `finalize` of the RPC manager, which joins the thread of the server; before that thread is joined
-- again; before the two other threads are joined; or at its end.
pub data MainAt : Type 0 where
  in_sigwait : MainAt
  stopping : MainAt
  main_holding : MainAt
  finalizing : MainAt
  rejoining : MainAt
  joining : MainAt
  returned : MainAt

pub record Daemon : Type 0 where
  pub owner : Option Thread
  pub tm : TmAt
  pub pm : PmAt
  pub main : MainAt
  pub tm_stop : Bool
  pub pm_stop : Bool

abbrev pub started : Daemon
started = record {
  owner = none;
  tm = tm_top;
  pm = pm_top;
  main = in_sigwait;
  tm_stop = false;
  pm_stop = false;
}

-- What the threads meet. With `faulty` a pool may fail to be retrieved, and then the early return
-- keeps the mutex. `server_made`: the thread of the server has set the pointer that `finalize` of the RPC
-- manager reads; it would be unset else. `rejoins`: `pthread_join` of a thread that was joined before
-- returns, which POSIX leaves open.
pub record Conditions : Type 0 where
  pub faulty : Bool
  pub server_made : Bool
  pub rejoins : Bool

abbrev pub sound : Conditions
sound = record { faulty = false; server_made = true; rejoins = true }

-- A step of one thread, with `users` entries in shares.conf.
pub data Step (users : ℕ) (w : Conditions) (s : Daemon) : Daemon → Type 0 where
  tm_enter : s.tm ≡ tm_top → s.tm_stop ≡ false → Step users w s (record s { tm = tm_locking })
  tm_leave : s.tm ≡ tm_top → s.tm_stop ≡ true → Step users w s (record s { tm = tm_ended })
  tm_lock :
      s.tm ≡ tm_locking
      → s.owner ≡ none
      → Step users w s (record s { tm = tm_holding true; owner = some terminator })
  tm_sleep :
      s.tm ≡ tm_holding true
      → s.tm_stop ≡ false
      → Step users w s (record s { tm = tm_waiting; owner = none })
  tm_wake :
      (timed_out : Bool)
      → s.tm ≡ tm_waiting
      → s.owner ≡ none
      → Step users w s (record s { tm = tm_holding (not timed_out); owner = some terminator })
  tm_go :
      (wait : Bool)
      → s.tm ≡ tm_holding wait
      → (wait && not s.tm_stop) ≡ false
      → Step users w s (record s { tm = serving users; owner = none })
  tm_call :
      (n : ℕ)
      → s.tm ≡ serving (suc n)
      → s.owner ≡ none
      → Step users w s (record s { tm = killing n; owner = some terminator })
  tm_return :
      (n : ℕ) → s.tm ≡ killing n → Step users w s (record s { tm = serving n; owner = none })
  tm_fail :
      (n : ℕ) → w.faulty ≡ true → s.tm ≡ killing n → Step users w s (record s { tm = serving n })
  tm_round : s.tm ≡ serving zero → Step users w s (record s { tm = tm_top })
  pm_enter : s.pm ≡ pm_top → s.pm_stop ≡ false → Step users w s (record s { pm = calling })
  pm_leave : s.pm ≡ pm_top → s.pm_stop ≡ true → Step users w s (record s { pm = pm_ended })
  pm_call :
      s.pm ≡ calling
      → s.owner ≡ none
      → Step users w s (record s { pm = clearing; owner = some priority_manager })
  pm_return : s.pm ≡ clearing → Step users w s (record s { pm = pm_top; owner = none })
  pm_fail : w.faulty ≡ true → s.pm ≡ clearing → Step users w s (record s { pm = pm_top })
  main_signal : s.main ≡ in_sigwait → Step users w s (record s { main = stopping; pm_stop = true })
  main_lock :
      s.main ≡ stopping
      → s.owner ≡ none
      → Step users w s (record s { main = main_holding; owner = some daemon })
  main_unlock :
      s.main ≡ main_holding
      → Step users w s (record s { main = finalizing; tm_stop = true; owner = none })
  main_finalize :
      s.main ≡ finalizing → w.server_made ≡ true → Step users w s (record s { main = rejoining })
  main_rejoin : s.main ≡ rejoining → w.rejoins ≡ true → Step users w s (record s { main = joining })
  main_join :
      s.main ≡ joining
      → s.pm ≡ pm_ended
      → s.tm ≡ tm_ended
      → Step users w s (record s { main = returned })

pub data Steps (users : ℕ) (w : Conditions) (s : Daemon) : Daemon → Type 0 where
  here : Steps users w s s
  later : {t u : Daemon} → Steps users w s t → Step users w t u → Steps users w s u

abbrev pub Reachable : ℕ → Conditions → Daemon → Type 0
Reachable users w s = Steps users w started s

-- The threads that are behind a lock that they will give back.
abbrev pub tm_holds : TmAt → Bool
tm_holds (tm_holding wait) = true
tm_holds (killing n) = true
tm_holds _ = false

abbrev pub pm_holds : PmAt → Bool
pm_holds clearing = true
pm_holds _ = false

abbrev pub main_holds : MainAt → Bool
main_holds main_holding = true
main_holds _ = false

abbrev pub holds : Thread → Daemon → Bool
holds terminator s = tm_holds s.tm
holds priority_manager s = pm_holds s.pm
holds daemon s = main_holds s.main
