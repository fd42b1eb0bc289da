-- ===== src/Terminator/Examples.antt =====
-- Runs of src/terminator/Terminator.cc over the two machines of the sample.
use one_fass.Base.{
  ◌==ℤ◌, not, ℕ, ℤ, pos, negsuc, List, [], ◌∷◌, ◌++◌, true, false, ◌≡◌, ◌↔◌, refl, some, none,
  Among, arith,
}
use one_fass.VmPool.{Pool, set_up, pending_search}
use one_fass.Text.{Text, codes}
use one_fass.Outcome.{done}
use one_fass.Floating.{whole}
use one_fass.Boost.Sample.{sample_boost}
use one_fass.VmPool.Sample.{send_answers, silent, silent_fails, xml, send, client, pool}
use one_fass.Terminator.{Call, running_search, Terminator, Killed, terminate, kill_running}
use one_fass.Terminator.{kill_pending}
use one_fass.Terminator.Pending.{Due, kill_pending_iff}
use one_fass.VmPool.Sample.{send_answers_pending}
use one_fass.Terminator.Running.{Justified, kill_running_iff}
use one_fass.Terminator.Loop.{Event, parse_user, serve_users}
use one_fass.Terminator.Locking.{database_writes, serve_users-completes}

abbrev free : Terminator whole xml
free = record {
  max_wait = pos 50;
  action = codes "kill";
  client = client;
  objects = [];
  locked = false;
}

abbrev held : Terminator whole xml
held = record free { locked = true }

-- VM 9 has run for 800 seconds; VM 7 is static and has not started.
abbrev killed : Killed whole xml
killed = record {
  after = record free { objects = pool };
  calls = terminate (pos 9) ∷ [];
  rc = pos 0;
  cpu = pos 4;
  memory = pos 1024;
}

kill_running_run :
    kill_running whole xml send (λ i. pos 1000) (pos 5) (pos 600) (pos 0) (pos 0) free ≡ done killed
unfolding kill_running one_fass.Base.◌+ℤ◌ one_fass.Base.◌*ℤ◌ one_fass.Base.◌-ℤ◌
    one_fass.Text.Decimal.dec one_fass.Text.Reading.read_int
kill_running_run = rw (send_answers (pos 5))

kill_running_iff_example :
    (answer : Pool whole xml × ℤ) × (set_up whole xml send client (running_search (pos 5))
      ≡ done answer)
    × (pool ≡ answer.0)
    × ((c : Call)
        → Among c killed.calls
          ↔ Justified whole xml (codes "kill") (pos 600) (λ i. pos 1000) answer.0 c)
kill_running_iff_example =
    kill_running_iff whole xml send (λ i. pos 1000) (pos 5) (pos 600) (pos 0) (pos 0) free
      kill_running_run

-- Two users as `shares.conf` names them.
abbrev ann : Text
ann = codes "ann:5:1:40:600"

abbrev bob : Text
bob = codes "bob:6:1:60:900"

abbrev stuck : Killed whole xml
stuck = record { after = held; calls = []; rc = negsuc 0; cpu = pos 0; memory = pos 0 }

parse_ann : parse_user sample_boost ann ≡ done (pos 5, pos 600)
unfolding parse_user one_fass.Text.Split.split one_fass.Text.Reading.read_int
parse_ann = refl

parse_bob : parse_user sample_boost bob ≡ done (pos 6, pos 900)
unfolding parse_user one_fass.Text.Split.split one_fass.Text.Reading.read_int
parse_bob = refl

silent_run :
    kill_running whole xml silent (λ i. pos 1000) (pos 5) (pos 600) (pos 0) (pos 0) free
    ≡ done stuck
unfolding kill_running
silent_run = rw (silent_fails (running_search (pos 5)))

serve_users-completes_example :
    (last : Terminator whole xml) × (events : List Event) × (serve_users whole xml sample_boost
        (λ k. send)
        (λ k i. pos 1000)
        (pos 77)
        0
        (ann ∷ bob ∷ [])
        free
      ≡ done (last, events))
    × (last.locked ≡ false)
    × (database_writes whole xml sample_boost events ≡ 4)
serve_users-completes_example =
    serve_users-completes whole xml sample_boost (λ k. send) (λ k i. pos 1000) (pos 77) 0
      (ann ∷ bob ∷ []) free refl (λ k uid. (pool, send_answers uid))
      (((pos 5, pos 600), parse_ann), (((pos 6, pos 900), parse_bob), tt))

-- VM 9 has waited for 900 seconds.
abbrev ended : Terminator whole xml × List Call × ℤ
ended = (record free { objects = pool }, terminate (pos 9) ∷ [], pos 0)

kill_pending_run : kill_pending whole xml send (λ i. pos 1000) (negsuc 0) free ≡ done ended
unfolding kill_pending one_fass.Base.◌+ℤ◌ one_fass.Base.◌*ℤ◌ one_fass.Base.◌-ℤ◌
    one_fass.Text.Decimal.dec one_fass.Text.Reading.read_int
kill_pending_run = rw send_answers_pending

kill_pending_iff_example :
    (answer : Pool whole xml × ℤ) × (set_up whole xml send client (pending_search (negsuc 0))
      ≡ done answer)
    × (pool ≡ answer.0)
    × ((c : Call) → Among c ended.1 ↔ Due whole xml (pos 50) (λ i. pos 1000) answer.0 c)
kill_pending_iff_example =
    kill_pending_iff whole xml send (λ i. pos 1000) (negsuc 0) free kill_pending_run
