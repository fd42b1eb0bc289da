-- ===== src/PriorityManager/Round/Served.antt =====
-- What a client is told between two rounds: `get_queue` of include/PriorityManager.h, which the handler in
-- src/rpcm/RequestQueue.cc calls.
use one_fass.Base.{List, ◌++◌, ◌≡◌, All}
use one_fass.Text.{Text, codes}
use one_fass.StdMap.{IsSorted}
use one_fass.Floating.{Floating}
use one_fass.Boost.{Boost}
use one_fass.Xml.{LibXml}
use one_fass.Client.{string}
use one_fass.Terminator.{Terminator}
use one_fass.Plugin.{evaluate_total_usage}
use one_fass.VmPool.Nodes.{AreNodes, concat}
use one_fass.PriorityManager.{Priorities}
use one_fass.PriorityManager.Ranking.{Stems, Covered}
use one_fass.PriorityManager.Cycle.{Settings, PriorityManager}
use one_fass.Rpc.{RequestAttributes}
use one_fass.Rpc.Methods.{Server}
use one_fass.Rpc.Answers.{answer}

module _ (f : Floating) (x : LibXml) (b : Boost f.F) where
  -- The server between two rounds, when no thread writes to the queue.
  abbrev pub get_queue : PriorityManager f x b → Server → Server
  get_queue m server = record server { queue = m.queue }

  -- The answer is a queue of the pending VMs.
  abbrev pub IsServed : Settings f x b → PriorityManager f x b → RequestAttributes → Type 0
  IsServed s m r =
      let p = evaluate_total_usage m.user_list in
      (prios : Priorities f x) × (texts : List Text) × IsSorted f.f_gt prios
      × All (Stems f x p m.user_list s.blank s.plugin_debug m.vmpool) prios
      × All (Covered f x p m.user_list s.blank s.plugin_debug prios) m.vmpool
      × AreNodes f x m.vmpool prios texts
      × (r.retval ≡ answer (string (codes "<VM_POOL>" ++ (concat texts ++ codes "</VM_POOL>"))))
