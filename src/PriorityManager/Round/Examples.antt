-- ===== src/PriorityManager/Round/Examples.antt =====
-- A round in which the pool is retrieved twice and the accounting is silent.
use one_fass.Base.{◌⊎◌, some, zero, suc, ℕ, pos, negsuc, [], ◌∷◌, ◌≡◌, false, ◌+ℤ◌}
use one_fass.Text.{codes}
use one_fass.Text.Split.{split}
use one_fass.Text.Reading.{read_int}
use one_fass.Outcome.{done}
use one_fass.StdMap.{insert}
use one_fass.Floating.{whole}
use one_fass.Boost.Sample.{sample_boost}
use one_fass.Client.{call, Transport}
use one_fass.AcctPool.{eval_usage}
use one_fass.Terminator.{Terminator, terminate, kill_pending}
use one_fass.VmPool.Sample.{
  queue_9_7_made, queue_9_7, send, silent, client, xml, pool, send_answers_pending,
}
use one_fass.Plugin.Sample.{debug_prio, light}
use one_fass.PriorityManager.{do_prioritize, Priorities}
use one_fass.PriorityManager.Cycle.{Settings, PriorityManager, cycle}
use one_fass.Rpc.Methods.{Server}
use one_fass.PriorityManager.Round.Rounds.{Rounds, none_yet, one_more}

-- The debug switch makes the id of a VM its priority.
abbrev settings : Settings whole xml sample_boost
settings = record {
  start_time = codes "19/04/1981";
  manager_timer = pos 60;
  period = pos 2;
  n_periods = 3;
  plugin_debug = pos 0;
  client = client;
  junk = record { cpu = pos 7; mem = pos 8 };
  blank = light;
}

abbrev answers : ℕ → Transport
answers zero = send
answers (suc zero) = send
answers (suc (suc n)) = silent

abbrev free : Terminator whole xml
free = record {
  max_wait = pos 50;
  action = codes "kill";
  client = client;
  objects = [];
  locked = false;
}

abbrev before : PriorityManager whole xml sample_boost
before = record {
  user_list = [];
  vmpool = [];
  priorities = [];
  queue = codes "<VM_POOL></VM_POOL>";
}

abbrev ranking : Priorities whole xml
ranking = (pos 9, pos 9) ∷ (pos 7, pos 7) ∷ []

ranking_run : do_prioritize whole xml [] light (pos 0) pool [] ≡ done ranking
unfolding do_prioritize insert
ranking_run = rw (debug_prio (pos 7), debug_prio (pos 9))

abbrev after : PriorityManager whole xml sample_boost
after = record { user_list = []; vmpool = pool; priorities = []; queue = queue_9_7 }

cycle_run :
    cycle whole xml sample_boost answers (λ i. pos 1000) (pos 1000) settings free before
    ≡ done (record free { objects = pool }, terminate (pos 9) ∷ [], [], after)
unfolding cycle kill_pending one_fass.AcctPool.SetUp.set_up eval_usage split read_int call ◌+ℤ◌
    one_fass.Base.◌*ℤ◌ one_fass.Base.◌-ℤ◌ one_fass.Text.Decimal.dec
cycle_run = rw (send_answers_pending, ranking_run, queue_9_7_made)

abbrev one_round : Rounds whole xml sample_boost settings before after
one_round =
    one_more none_yet answers (λ i. pos 1000) (pos 1000) free (record free { objects = pool })
      (terminate (pos 9) ∷ []) [] cycle_run

abbrev server : Server
server = record {
  version = codes "1.3";
  queue = [];
  call_log_format = codes "Req:%i %m";
  uid = pos 0;
  gid = pos 0;
  user_name = some (codes "root");
  req_id = pos 1;
}
