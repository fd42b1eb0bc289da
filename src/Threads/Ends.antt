-- ===== src/Threads/Ends.antt =====
-- The daemon can return where every pool is retrieved.
use one_fass.Base.{ℕ, zero, suc, Bool, true, false, Option, none, some, ◌≡◌, refl, arith}
use one_fass.Threads.{
  Thread, terminator, priority_manager, daemon, Daemon, Conditions, sound, Step, Steps, here, later,
  Reachable, tm_enter, tm_leave, tm_lock, tm_sleep, tm_wake, tm_go, tm_call, tm_return, tm_fail,
  tm_round, pm_enter, pm_leave, pm_call, pm_return, pm_fail, main_signal, main_lock, main_unlock,
  main_finalize, main_rejoin, main_join, tm_holds, pm_holds, main_holds, TmAt, tm_top, tm_locking,
  tm_holding, tm_waiting, serving, killing, tm_ended, PmAt, pm_top, calling, clearing, pm_ended,
  MainAt, in_sigwait, stopping, main_holding, finalizing, rejoining, joining, returned,
}
use one_fass.Threads.Owner.{IsOwned, Steps-IsOwned, started-IsOwned}

-- The owner of the mutex is behind a lock, and the daemon has told whom it has passed.
record IsHeld (s : Daemon) : Type 0 where
  tm_held : s.owner ≡ some terminator → tm_holds s.tm ≡ true
  pm_held : s.owner ≡ some priority_manager → pm_holds s.pm ≡ true
  main_held : s.owner ≡ some daemon → main_holds s.main ≡ true

abbrev told_pm : MainAt → Bool
told_pm in_sigwait = false
told_pm _ = true

abbrev told_tm : MainAt → Bool
told_tm finalizing = true
told_tm rejoining = true
told_tm joining = true
told_tm returned = true
told_tm _ = false

record IsTold (s : Daemon) : Type 0 where
  pm_told : told_pm s.main ≡ true → s.pm_stop ≡ true
  tm_told : told_tm s.main ≡ true → s.tm_stop ≡ true

Step-IsHeld : {users : ℕ} {s t : Daemon} → Step users sound s t → IsOwned s → IsHeld s → IsHeld t
Step-IsHeld (tm_enter p q) o h = ground arith
Step-IsHeld (tm_leave p q) o h = ground arith
Step-IsHeld (tm_lock p q) o h = ground arith
Step-IsHeld (tm_sleep p q) o h = ground arith
Step-IsHeld (tm_wake timed_out p q) o h = ground arith
Step-IsHeld (tm_go wait p q) o h = ground arith
Step-IsHeld (tm_call n p q) o h = ground arith
Step-IsHeld (tm_return n p) o h = ground arith
Step-IsHeld (tm_fail n q p) o h = ground arith
Step-IsHeld (tm_round p) o h = ground arith
Step-IsHeld (pm_enter p q) o h = ground arith
Step-IsHeld (pm_leave p q) o h = ground arith
Step-IsHeld (pm_call p q) o h = ground arith
Step-IsHeld (pm_return p) o h = ground arith
Step-IsHeld (pm_fail q p) o h = ground arith
Step-IsHeld (main_signal p) o h = ground arith
Step-IsHeld (main_lock p q) o h = ground arith
Step-IsHeld (main_unlock p) o h = ground arith
Step-IsHeld (main_finalize p q) o h = ground arith
Step-IsHeld (main_rejoin p q) o h = ground arith
Step-IsHeld (main_join p q r) o h = ground arith

Step-IsTold : {users : ℕ} {w : Conditions} {s t : Daemon} → Step users w s t → IsTold s → IsTold t
Step-IsTold (tm_enter p q) h = ground arith
Step-IsTold (tm_leave p q) h = ground arith
Step-IsTold (tm_lock p q) h = ground arith
Step-IsTold (tm_sleep p q) h = ground arith
Step-IsTold (tm_wake timed_out p q) h = ground arith
Step-IsTold (tm_go wait p q) h = ground arith
Step-IsTold (tm_call n p q) h = ground arith
Step-IsTold (tm_return n p) h = ground arith
Step-IsTold (tm_fail n q p) h = ground arith
Step-IsTold (tm_round p) h = ground arith
Step-IsTold (pm_enter p q) h = ground arith
Step-IsTold (pm_leave p q) h = ground arith
Step-IsTold (pm_call p q) h = ground arith
Step-IsTold (pm_return p) h = ground arith
Step-IsTold (pm_fail q p) h = ground arith
Step-IsTold (main_signal p) h = ground arith
Step-IsTold (main_lock p q) h = ground arith
Step-IsTold (main_unlock p) h = ground arith
Step-IsTold (main_finalize p q) h = ground arith
Step-IsTold (main_rejoin p q) h = ground arith
Step-IsTold (main_join p q r) h = ground arith

Steps-IsHeld : {users : ℕ} {s : Daemon} → Reachable users sound s → IsHeld s × IsTold s
Steps-IsHeld here = (
  record { tm_held = λ h. cc; pm_held = λ h. cc; main_held = λ h. cc },
  record { pm_told = λ h. cc; tm_told = λ h. cc },
)
Steps-IsHeld (later r st) =
    let (held, told) = Steps-IsHeld r in
    (Step-IsHeld st (Steps-IsOwned started-IsOwned r) held, Step-IsTold st told)

Steps-append :
    {users : ℕ} {s t u : Daemon}
    → Steps users sound s t
    → Steps users sound t u
    → Steps users sound s u
Steps-append r here = r
Steps-append r (later q st) = later (Steps-append r q) st

module _ (users : ℕ) where
  abbrev pub CanReturn : Daemon → Type 0
  CanReturn s = (u : Daemon) × Steps users sound s u × (u.main ≡ returned)

  by : {s t : Daemon} → Step users sound s t → CanReturn t → CanReturn s
  by st (u, r, e) = (u, Steps-append (later here st) r, e)

  abbrev pub state : Option Thread → TmAt → PmAt → MainAt → Bool → Bool → Daemon
  state o t p m tm_stop pm_stop = record {
    owner = o;
    tm = t;
    pm = p;
    main = m;
    tm_stop = tm_stop;
    pm_stop = pm_stop;
  }

  abbrev told : TmAt → PmAt → Daemon
  told t p = state none t p joining true true

  tm_left : CanReturn (told tm_top pm_ended)
  tm_left = by (tm_leave refl refl) (by (main_join refl refl refl) (_, here, refl))

  users_served : (n : ℕ) → CanReturn (told (serving n) pm_ended)
  users_served zero = by (tm_round refl) tm_left
  users_served (suc n) = by (tm_call n refl refl) (by (tm_return n refl) (users_served n))

  tm_joined : (t : TmAt) → tm_holds t ≡ false → CanReturn (told t pm_ended)
  tm_joined tm_top h = tm_left
  tm_joined tm_locking h = by (tm_lock refl refl) (by (tm_go true refl refl) (users_served users))
  tm_joined (tm_holding wait) h = cc
  tm_joined tm_waiting h =
      by (tm_wake true refl refl) (by (tm_go false refl refl) (users_served users))
  tm_joined (serving n) h = users_served n
  tm_joined (killing n) h = cc
  tm_joined tm_ended h = by (main_join refl refl refl) (_, here, refl)

  pm_joined : (t : TmAt) (p : PmAt) → tm_holds t ≡ false → pm_holds p ≡ false → CanReturn (told t p)
  pm_joined t pm_top h k = by (pm_leave refl refl) (tm_joined t h)
  pm_joined t calling h k =
      by (pm_call refl refl) (by (pm_return refl) (by (pm_leave refl refl) (tm_joined t h)))
  pm_joined t clearing h k = cc
  pm_joined t pm_ended h k = tm_joined t h

  rejoined :
      (t : TmAt) (p : PmAt)
      → tm_holds t ≡ false
      → pm_holds p ≡ false
      → CanReturn (state none t p rejoining true true)
  rejoined t p h k = by (main_rejoin refl refl) (pm_joined t p h k)

  finalized :
      (t : TmAt) (p : PmAt)
      → tm_holds t ≡ false
      → pm_holds p ≡ false
      → CanReturn (state none t p finalizing true true)
  finalized t p h k = by (main_finalize refl refl) (rejoined t p h k)

  main_ends :
      (t : TmAt) (p : PmAt) (m : MainAt) (tm_stop pm_stop : Bool)
      → tm_holds t ≡ false
      → pm_holds p ≡ false
      → main_holds m ≡ false
      → IsTold (state none t p m tm_stop pm_stop)
      → CanReturn (state none t p m tm_stop pm_stop)
  main_ends t p in_sigwait ts ps h k l i =
      by (main_signal refl) (by (main_lock refl refl) (by (main_unlock refl) (finalized t p h k)))
  main_ends t p stopping ts ps h k l i =
      rw (i.pm_told refl) (by (main_lock refl refl) (by (main_unlock refl) (finalized t p h k)))
  main_ends t p main_holding ts ps h k l i = cc
  main_ends t p finalizing ts ps h k l i = rw (i.pm_told refl, i.tm_told refl) (finalized t p h k)
  main_ends t p rejoining ts ps h k l i = rw (i.pm_told refl, i.tm_told refl) (rejoined t p h k)
  main_ends t p joining ts ps h k l i = rw (i.pm_told refl, i.tm_told refl) (pm_joined t p h k)
  main_ends t p returned ts ps h k l i = (_, here, refl)

  released :
      (o : Option Thread) (t : TmAt) (p : PmAt) (m : MainAt) (tm_stop pm_stop : Bool)
      → IsOwned (state o t p m tm_stop pm_stop)
      → IsHeld (state o t p m tm_stop pm_stop)
      → IsTold (state o t p m tm_stop pm_stop)
      → CanReturn (state o t p m tm_stop pm_stop)
  released none t p m ts ps o h i =
      main_ends t p m ts ps (ground arith) (ground arith) (ground arith) i
  released (some terminator) (killing n) p m ts ps o h i =
      by (tm_return n refl)
        (main_ends (serving n) p m ts ps refl (ground arith) (ground arith) (ground arith))
  released (some terminator) (tm_holding false) p m ts ps o h i =
      by (tm_go false refl refl)
        (main_ends (serving users) p m ts ps refl (ground arith) (ground arith) (ground arith))
  released (some terminator) (tm_holding true) p m true ps o h i =
      by (tm_go true refl refl)
        (main_ends (serving users) p m true ps refl (ground arith) (ground arith) (ground arith))
  released (some terminator) (tm_holding true) p m false ps o h i =
      by (tm_sleep refl refl)
        (main_ends tm_waiting p m false ps refl (ground arith) (ground arith) (ground arith))
  released (some terminator) tm_top p m ts ps o h i = ground arith
  released (some terminator) tm_locking p m ts ps o h i = ground arith
  released (some terminator) tm_waiting p m ts ps o h i = ground arith
  released (some terminator) (serving n) p m ts ps o h i = ground arith
  released (some terminator) tm_ended p m ts ps o h i = ground arith
  released (some priority_manager) t clearing m ts ps o h i =
      by (pm_return refl)
        (main_ends t pm_top m ts ps (ground arith) refl (ground arith) (ground arith))
  released (some priority_manager) t pm_top m ts ps o h i = ground arith
  released (some priority_manager) t calling m ts ps o h i = ground arith
  released (some priority_manager) t pm_ended m ts ps o h i = ground arith
  released (some daemon) t p main_holding ts ps o h i =
      rw (i.pm_told refl) (by (main_unlock refl) (finalized t p (ground arith) (ground arith)))
  released (some daemon) t p in_sigwait ts ps o h i = ground arith
  released (some daemon) t p stopping ts ps o h i = ground arith
  released (some daemon) t p finalizing ts ps o h i = ground arith
  released (some daemon) t p rejoining ts ps o h i = ground arith
  released (some daemon) t p joining ts ps o h i = ground arith
  released (some daemon) t p returned ts ps o h i = ground arith

  -- If every pool is retrieved, the thread of the server has made its server before the end, and
  -- joining that thread for the second time returns, then from every state that can be reached, with
  -- the threads wherever they are, the daemon can still be told to stop and return.
  pub Reachable-CanReturn : {s : Daemon} → Reachable users sound s → CanReturn s
  Reachable-CanReturn {s} r =
      let (held, told) = Steps-IsHeld r in
      released s.owner s.tm s.pm s.main s.tm_stop s.pm_stop (Steps-IsOwned started-IsOwned r) held
        told
