-- ===== src/Threads/Leak.antt =====
-- What a retrieval that fails leads to.
use one_fass.Base.{ℕ, Bool, true, false, some, ◌≡◌, ◌≢◌, ◌⊎◌, inl, inr, refl, arith}
use one_fass.Threads.{
  Thread, terminator, priority_manager, daemon, Daemon, Conditions, sound, Step, Steps, here, later,
  Reachable, holds, tm_enter, tm_leave, tm_lock, tm_sleep, tm_wake, tm_go, tm_call, tm_return,
  tm_fail, tm_round, pm_enter, pm_leave, pm_call, pm_return, pm_fail, main_signal, main_lock,
  main_unlock, main_finalize, main_rejoin, main_join, killing, serving, clearing, pm_top,
  in_sigwait, stopping, returned, MainAt,
}
use one_fass.Threads.Owner.{IsOwned, Step-IsOwned, Steps-IsOwned, started-IsOwned}

-- The thread has gone on without giving the mutex back.
abbrev IsLeaked : Thread → Daemon → Type 0
IsLeaked th s = (s.owner ≡ some th) × (holds th s ≡ false)

-- The daemon has told the terminator to stop.
abbrev pub has_told : MainAt → Bool
has_told in_sigwait = false
has_told stopping = false
has_told _ = true

Step-tm-IsLeaked :
    {users : ℕ} {w : Conditions} {s t : Daemon}
    → Step users w s t
    → IsOwned s
    → IsLeaked terminator s
    → IsLeaked terminator t × (has_told s.main ≡ false → has_told t.main ≡ false)
Step-tm-IsLeaked (tm_enter p q) o l = ground arith
Step-tm-IsLeaked (tm_leave p q) o l = ground arith
Step-tm-IsLeaked (tm_lock p q) o l = ground arith
Step-tm-IsLeaked (tm_sleep p q) o l = ground arith
Step-tm-IsLeaked (tm_wake timed_out p q) o l = ground arith
Step-tm-IsLeaked (tm_go wait p q) o l = ground arith
Step-tm-IsLeaked (tm_call n p q) o l = ground arith
Step-tm-IsLeaked (tm_return n p) o l = ground arith
Step-tm-IsLeaked (tm_fail n q p) o l = ground arith
Step-tm-IsLeaked (tm_round p) o l = ground arith
Step-tm-IsLeaked (pm_enter p q) o l = ground arith
Step-tm-IsLeaked (pm_leave p q) o l = ground arith
Step-tm-IsLeaked (pm_call p q) o l = ground arith
Step-tm-IsLeaked (pm_return p) o l = ground arith
Step-tm-IsLeaked (pm_fail q p) o l = ground arith
Step-tm-IsLeaked (main_signal p) o l = ground arith
Step-tm-IsLeaked (main_lock p q) o l = ground arith
Step-tm-IsLeaked (main_unlock p) o l = ground arith
Step-tm-IsLeaked (main_finalize p q) o l = ground arith
Step-tm-IsLeaked (main_rejoin p q) o l = ground arith
Step-tm-IsLeaked (main_join p q r) o l = ground arith

Step-pm-IsLeaked :
    {users : ℕ} {w : Conditions} {s t : Daemon}
    → Step users w s t
    → IsOwned s
    → IsLeaked priority_manager s
    → IsLeaked priority_manager t × (has_told s.main ≡ false → has_told t.main ≡ false)
Step-pm-IsLeaked (tm_enter p q) o l = ground arith
Step-pm-IsLeaked (tm_leave p q) o l = ground arith
Step-pm-IsLeaked (tm_lock p q) o l = ground arith
Step-pm-IsLeaked (tm_sleep p q) o l = ground arith
Step-pm-IsLeaked (tm_wake timed_out p q) o l = ground arith
Step-pm-IsLeaked (tm_go wait p q) o l = ground arith
Step-pm-IsLeaked (tm_call n p q) o l = ground arith
Step-pm-IsLeaked (tm_return n p) o l = ground arith
Step-pm-IsLeaked (tm_fail n q p) o l = ground arith
Step-pm-IsLeaked (tm_round p) o l = ground arith
Step-pm-IsLeaked (pm_enter p q) o l = ground arith
Step-pm-IsLeaked (pm_leave p q) o l = ground arith
Step-pm-IsLeaked (pm_call p q) o l = ground arith
Step-pm-IsLeaked (pm_return p) o l = ground arith
Step-pm-IsLeaked (pm_fail q p) o l = ground arith
Step-pm-IsLeaked (main_signal p) o l = ground arith
Step-pm-IsLeaked (main_lock p q) o l = ground arith
Step-pm-IsLeaked (main_unlock p) o l = ground arith
Step-pm-IsLeaked (main_finalize p q) o l = ground arith
Step-pm-IsLeaked (main_rejoin p q) o l = ground arith
Step-pm-IsLeaked (main_join p q r) o l = ground arith

Steps-tm-IsLeaked :
    {users : ℕ} {w : Conditions} {s t : Daemon}
    → IsOwned s
    → IsLeaked terminator s
    → Steps users w s t
    → IsLeaked terminator t × (has_told s.main ≡ false → has_told t.main ≡ false)
Steps-tm-IsLeaked o l here = (l, λ h. h)
Steps-tm-IsLeaked o l (later r st) =
    let (m, told) = Steps-tm-IsLeaked o l r in
    let (n, still) = Step-tm-IsLeaked st (Steps-IsOwned o r) m in (n, λ h. still (told h))

Steps-pm-IsLeaked :
    {users : ℕ} {w : Conditions} {s t : Daemon}
    → IsOwned s
    → IsLeaked priority_manager s
    → Steps users w s t
    → IsLeaked priority_manager t × (has_told s.main ≡ false → has_told t.main ≡ false)
Steps-pm-IsLeaked o l here = (l, λ h. h)
Steps-pm-IsLeaked o l (later r st) =
    let (m, told) = Steps-pm-IsLeaked o l r in
    let (n, still) = Step-pm-IsLeaked st (Steps-IsOwned o r) m in (n, λ h. still (told h))

leaked-none :
    {s : Daemon} (leak : Thread) → IsOwned s → IsLeaked leak s → (th : Thread) → holds th s ≡ false
leaked-none terminator o l terminator = ground arith
leaked-none terminator o l priority_manager = ground arith
leaked-none terminator o l daemon = ground arith
leaked-none priority_manager o l terminator = ground arith
leaked-none priority_manager o l priority_manager = ground arith
leaked-none priority_manager o l daemon = ground arith
leaked-none daemon o l terminator = ground arith
leaked-none daemon o l priority_manager = ground arith
leaked-none daemon o l daemon = ground arith

-- The early return of `kill_running`, or that of `kill_pending`.
abbrev pub Fails : Daemon → Daemon → Type 0
Fails s t =
    ((n : ℕ) × (s.tm ≡ killing n) × (t ≡ record s { tm = serving n }))
    ⊎ ((s.pm ≡ clearing) × (t ≡ record s { pm = pm_top }))

abbrev failing : Conditions
failing = record sound { faulty = true }

-- Once a pool could not be retrieved behind the lock, no thread is ever behind a lock of the mutex
-- again: no VM is ended any more, and if the daemon has not yet told the terminator to stop, then it
-- never returns.
pub failure_lasts :
    {users : ℕ} {w : Conditions} {s t u : Daemon}
    → Reachable users w s
    → Fails s t
    → Steps users w t u
    → ((th : Thread) → holds th u ≡ false) × (has_told s.main ≡ false → u.main ≢ returned)
failure_lasts {users} {s} r (inl (n, at, same)) rest =
    let o = Steps-IsOwned started-IsOwned r in
    let failed : Step users failing s (record s { tm = serving n }) = tm_fail n refl at in
    let o' = Step-IsOwned failed o in
    let (l, told) = Steps-tm-IsLeaked o' (o.tm_owns (rw at), refl) (rw same at rest) in
    (leaked-none terminator (Steps-IsOwned o' (rw same at rest)) l, λ h e. ground (arith, told h))
failure_lasts {users} {s} r (inr (at, same)) rest =
    let o = Steps-IsOwned started-IsOwned r in
    let failed : Step users failing s (record s { pm = pm_top }) = pm_fail refl at in
    let o' = Step-IsOwned failed o in
    let (l, told) = Steps-pm-IsLeaked o' (o.pm_owns (rw at), refl) (rw same at rest) in
    (
      leaked-none priority_manager (Steps-IsOwned o' (rw same at rest)) l,
      λ h e. ground (arith, told h),
    )
