-- ===== src/Threads/Examples.antt =====
-- A terminator with one user that is about to look at its pool.
use one_fass.Base.{true, false, some, ◌≡◌, ◌≢◌, refl, inl}
use one_fass.Threads.{
  Thread, terminator, Daemon, Conditions, sound, Steps, here, later, Reachable, started, holds,
  tm_enter, tm_lock, tm_sleep, tm_wake, tm_go, tm_call, killing, serving, main_signal, stopping,
  returned,
}
use one_fass.Threads.Owner.{exclusive}
use one_fass.Threads.Leak.{failure_lasts, has_told}
use one_fass.Threads.Ends.{CanReturn, Reachable-CanReturn}

abbrev failing : Conditions
failing = record sound { faulty = true }

abbrev at_work : Daemon
at_work = record started { owner = some terminator; tm = killing 0 }

at_work_reached : (w : Conditions) → Reachable 1 w at_work
at_work_reached w =
    later
      (later
        (later
          (later (later (later here (tm_enter refl refl)) (tm_lock refl refl)) (tm_sleep refl refl))
          (tm_wake true refl refl))
        (tm_go false refl refl))
      (tm_call 0 refl refl)

exclusive_example : terminator ≡ terminator
exclusive_example = exclusive (at_work_reached failing) terminator terminator refl refl

abbrev failed : Daemon
failed = record at_work { tm = serving 0 }

abbrev told_to_stop : Daemon
told_to_stop = record failed { main = stopping; pm_stop = true }

signalled : Steps 1 failing failed told_to_stop
signalled = later here (main_signal refl)

failure_lasts_example :
    ((th : Thread) → holds th told_to_stop ≡ false)
    × (has_told at_work.main ≡ false → told_to_stop.main ≢ returned)
failure_lasts_example = failure_lasts (at_work_reached failing) (inl (0, refl, refl)) signalled

Reachable-CanReturn_example : CanReturn 1 at_work
Reachable-CanReturn_example = Reachable-CanReturn 1 (at_work_reached sound)
