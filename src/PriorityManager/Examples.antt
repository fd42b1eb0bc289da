-- ===== src/PriorityManager/Examples.antt =====
-- The priorities that src/pm/PriorityManager.cc gives the two machines of the sample.
use one_fass.Text.{codes}
use one_fass.Text.Reading.{read_int}
use one_fass.Boost.Sample.{sample_boost}
use one_fass.Outcome.{faults}
use one_fass.Text.Split.{split}
use one_fass.Client.{call, Transport}
use one_fass.AcctPool.{eval_usage}
use one_fass.AcctPool.SetUp
use one_fass.Terminator.{Terminator, terminate, kill_pending}
use one_fass.VmPool.{pending_search, make_queue}
use one_fass.VmPool.Faults.{make_queue_empty}
use one_fass.VmPool.Sample.{send, silent, client, pool-IsValid, send_answers_pending, silent_fails}
use one_fass.PriorityManager.Cycle.{Settings, PriorityManager, cycle}
use one_fass.PriorityManager.Queue.{do_prioritize-make_queue, cycle_failed}
use one_fass.Base.{
  zero, suc, ◌≢◌, ℕ, map, ◌+ℤ◌, ℤ, pos, negsuc, [], ◌∷◌, ◌≡◌, refl, false, All, inl, arith,
}
use one_fass.Outcome.{done}
use one_fass.StdMap.{insert, IsSorted}
use one_fass.Floating.{whole}
use one_fass.Plugin.{evaluate_total_usage}
use one_fass.Plugin.Sample.{light, heavy, twin, light_prio, heavy_prio, twin_prio, light_prio_again}
use one_fass.VmPool.Sample.{xml, pool, vm_7, vm_9}
use one_fass.PriorityManager.{find_user, do_prioritize, Priorities}
use one_fass.PriorityManager.Ranking.{Stems, Covered, do_prioritize_lem}
use one_fass.PriorityManager.Ties.{do_prioritize_tie}

-- The older machine is the light user's, the other one the heavy user's.
abbrev ranking : Priorities whole xml
ranking = (pos 997_000_000_000_000, pos 9) ∷ (pos 991_000_000_000_000, pos 7) ∷ []

ltb_irreflexive : (k : ℤ) → whole.f_gt k k ≡ false
ltb_irreflexive k = ground arith

ranking_run : do_prioritize whole xml (light ∷ heavy ∷ []) light (negsuc 0) pool [] ≡ done ranking
unfolding do_prioritize insert
ranking_run = rw (heavy_prio (pos 7), light_prio (pos 9))

do_prioritize_lem_example :
    IsSorted whole.f_gt ranking
    × All
        (Stems whole xml
          (evaluate_total_usage (light ∷ heavy ∷ []))
          (light ∷ heavy ∷ [])
          light
          (negsuc 0)
          pool)
        ranking
    × All
        (Covered whole xml
          (evaluate_total_usage (light ∷ heavy ∷ []))
          (light ∷ heavy ∷ [])
          light
          (negsuc 0)
          ranking)
        pool
do_prioritize_lem_example =
    do_prioritize_lem whole xml ltb_irreflexive (light ∷ heavy ∷ []) light (negsuc 0) pool
      ranking_run

do_prioritize_tie_example :
    do_prioritize whole xml (light ∷ twin ∷ []) light (negsuc 0) pool []
    ≡ do_prioritize whole xml (light ∷ twin ∷ []) light (negsuc 0) ((pos 7, vm_7) ∷ []) []
unfolding find_user
do_prioritize_tie_example =
    do_prioritize_tie whole xml (light ∷ twin ∷ []) light (negsuc 0) ltb_irreflexive
      ((pos 7, vm_7) ∷ []) [] (pos 7, vm_7) (pos 9, vm_9) (pos 997_000_000_000_000) (inl refl)
      (pos 997_000_000_000_000, twin_prio (pos 7), refl)
      (pos 997_000_000_000_000, light_prio_again (pos 9), refl)

do_prioritize-make_queue_example : make_queue whole xml pool ranking ≢ faults
do_prioritize-make_queue_example =
    do_prioritize-make_queue whole xml ltb_irreflexive (light ∷ heavy ∷ []) light (negsuc 0) pool
      pool-IsValid ranking_run

-- A round: the pending VMs are retrieved for the terminator, then the server falls silent.
abbrev settings : Settings whole xml sample_boost
settings = record {
  start_time = codes "19/04/1981";
  manager_timer = pos 60;
  period = pos 2;
  n_periods = 3;
  plugin_debug = negsuc 0;
  client = client;
  junk = record { cpu = pos 7; mem = pos 8 };
  blank = light;
}

abbrev falling_silent : ℕ → Transport
falling_silent zero = send
falling_silent (suc n) = silent

abbrev free : Terminator whole xml
free = record {
  max_wait = pos 50;
  action = codes "kill";
  client = client;
  objects = [];
  locked = false;
}

abbrev before : PriorityManager whole xml sample_boost
before = record {
  user_list = [];
  vmpool = pool;
  priorities = [];
  queue = codes "<VM_POOL><VM></VM></VM_POOL>";
}

abbrev after : PriorityManager whole xml sample_boost
after = record { user_list = []; vmpool = []; priorities = []; queue = codes "<VM_POOL></VM_POOL>" }

cycle_run :
    cycle whole xml sample_boost falling_silent (λ i. pos 1000) (pos 1000) settings free before
    ≡ done (record free { objects = pool }, terminate (pos 9) ∷ [], [], after)
unfolding cycle kill_pending one_fass.AcctPool.SetUp.set_up eval_usage do_prioritize split read_int
    call ◌+ℤ◌ one_fass.Base.◌*ℤ◌ one_fass.Base.◌-ℤ◌ one_fass.Text.Decimal.dec
cycle_run =
    rw (send_answers_pending, silent_fails (pending_search (negsuc 0)), make_queue_empty whole xml)

cycle_failed_example : (after.queue ≡ codes "<VM_POOL></VM_POOL>") × (after.priorities ≡ [])
cycle_failed_example =
    cycle_failed whole xml sample_boost falling_silent (λ i. pos 1000) (pos 1000) settings free
      (record free { objects = pool }) (terminate (pos 9) ∷ []) [] before after [] refl
      (silent_fails (pending_search (negsuc 0))) cycle_run
