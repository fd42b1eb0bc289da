-- ===== src/PriorityManager/Round.antt =====
-- A whole round of the priority manager, from the pending VMs to the text of the queue.
pub mod Served
pub mod Rounds
pub mod Order
mod Examples
use one_fass.Base.{◌∙◌, ℕ, ℤ, negsuc, false, List, [], ◌++◌, ◌≡◌, All, sym, ap, refl}
use mathlib.Core.Path.{subst}
use one_fass.Text.{Text, codes}
use one_fass.Outcome.{done, >>=-eq-done, done-injective}
use one_fass.StdMap.{IsSorted}
use one_fass.Floating.{Floating}
use one_fass.Boost.{Boost}
use one_fass.User.{User}
use one_fass.Xml.{LibXml}
use one_fass.Client.{Transport}
use one_fass.Terminator.{Terminator, Call, kill_pending}
use one_fass.Plugin.{evaluate_total_usage}
use one_fass.VmPool.{Pool, set_up, pending_search, make_queue}
use one_fass.VmPool.Nodes.{AreNodes, concat, make_queue_inv}
use one_fass.PriorityManager.{Priorities, do_prioritize}
use one_fass.PriorityManager.Ranking.{Stems, Covered, do_prioritize_lem}
use one_fass.PriorityManager.Cycle.{Settings, PriorityManager, cycle, plan, historical_usage}

module _ (f : Floating) (x : LibXml) (b : Boost f.F) where
  plan_inv :
      (s : Settings f x b) (us : List (User f.F)) (vmpool : Pool f x) (m : PriorityManager f x b)
      {m' : PriorityManager f x b}
      → plan f x b s us vmpool m ≡ done m'
      → (prios : Priorities f x) × (queue : Text) × (do_prioritize f x us s.blank s.plugin_debug
            vmpool m.priorities
          ≡ done prios)
        × (make_queue f x vmpool prios ≡ done queue)
        × (m' ≡ record { user_list = us; vmpool = vmpool; priorities = []; queue = queue })
  unfolding plan
  plan_inv s us vmpool m e =
      let (prios, e0, r0) =
        >>=-eq-done (do_prioritize f x us s.blank s.plugin_debug vmpool m.priorities) _ e in
      let (queue, e1, r1) = >>=-eq-done (make_queue f x vmpool prios) _ r0 in
      (prios, queue, e0, e1, sym (done-injective _ _ r1))

  -- What a round has retrieved: the pool is the answer of OpenNebula to the search for the pending VMs,
  -- and the users have the usage of the accounting that it asked for.
  abbrev pub Retrieved :
      (ℕ → Transport)
      → ℤ
      → Settings f x b
      → List Text
      → PriorityManager f x b
      → PriorityManager f x b
      → Type 0
  Retrieved send timestamp s points m m' =
      (answer : Pool f x × ℤ) × (set_up f x (send 1) s.client (pending_search (negsuc 0))
        ≡ done answer)
      × (m'.vmpool ≡ answer.0)
      × (historical_usage f x b (send 2) s timestamp m.user_list ≡ done (m'.user_list, points))

  pub cycle-Retrieved :
      (send : ℕ → Transport) (now : ℕ → ℤ) (timestamp : ℤ) (s : Settings f x b)
      (t t' : Terminator f x) (calls : List Call) (points : List Text)
      (m m' : PriorityManager f x b)
      → cycle f x b send now timestamp s t m ≡ done (t', calls, points, m')
      → Retrieved send timestamp s points m m'
  unfolding cycle
  cycle-Retrieved send now timestamp s t t' calls points m m' e =
      let (killed, e0, r0) = >>=-eq-done (kill_pending f x (send 0) now (negsuc 0) t) _ e in
      let (answer, e1, r1) =
        >>=-eq-done (set_up f x (send 1) s.client (pending_search (negsuc 0))) _ r0 in
      let (answered, e2, r2) =
        >>=-eq-done (historical_usage f x b (send 2) s timestamp m.user_list) _ r1 in
      let (planned, e3, r3) = >>=-eq-done (plan f x b s answered.0 answer.0 m) _ r2 in
      let (prios, queue, e4, e5, same) = plan_inv s answered.0 answer.0 m e3 in
      let ran =
        done-injective (killed.0, killed.1, answered.1, planned) (t', calls, points, m') r3 in
      let left = sym (ap (λ r. r.3) ran) ∙ same in
      let users = sym (ap (λ p. p.user_list) left) in
      let written = ap (λ r. r.2) ran in
      (answer, e1, ap (λ p. p.vmpool) left, e2 ∙ ap done (pair_eq users written))
    where
      pair_eq :
          {us vs : List (User f.F)} {ps qs : List Text}
          → us ≡ vs
          → ps ≡ qs
          → ◌≡◌ {A = List (User f.F) × List Text} (us, ps) (vs, qs)
      pair_eq p q = cc

  -- The queue of a state: the VMs of its pool, each with the priority that the plugin gives it with its
  -- users, in the order of falling priority.
  abbrev pub IsQueue : Settings f x b → PriorityManager f x b → Type 0
  IsQueue s m =
      let p = evaluate_total_usage m.user_list in
      (prios : Priorities f x) × (texts : List Text) × IsSorted f.f_gt prios
      × All (Stems f x p m.user_list s.blank s.plugin_debug m.vmpool) prios
      × All (Covered f x p m.user_list s.blank s.plugin_debug prios) m.vmpool
      × AreNodes f x m.vmpool prios texts
      × (m.queue ≡ codes "<VM_POOL>" ++ (concat texts ++ codes "</VM_POOL>"))

  plan-IsQueue :
      (irreflexive : (k : f.F) → f.f_gt k k ≡ false) (s : Settings f x b) (us : List (User f.F))
      (vmpool : Pool f x) (m : PriorityManager f x b) {m' : PriorityManager f x b}
      → m.priorities ≡ []
      → plan f x b s us vmpool m ≡ done m'
      → IsQueue s m' × (m'.priorities ≡ [])
  plan-IsQueue irreflexive s us vmpool m empty e =
      let (prios, queue, e0, e1, same) = plan_inv s us vmpool m e in
      let (sorted, stems, covered) =
        do_prioritize_lem f x irreflexive us s.blank s.plugin_debug vmpool (rw empty at e0) in
      let (texts, nodes, text) = make_queue_inv f x vmpool prios e1 in
      subst (λ m. IsQueue s m × (m.priorities ≡ [])) (sym same)
        ((prios, texts, sorted, stems, covered, nodes, text), refl)

  -- When a round comes to its end, the queue is one `<VM_POOL>` with a node for each entry of a map of
  -- priorities, in the order of falling priority: each node is the dump of the pending VM with the id,
  -- with the priority that the plugin gives it set, and each pending VM has an entry whose key is neither
  -- greater nor less than its priority. The round is to begin without priorities, which it ends
  -- with, and no float is to be greater than itself.
  pub cycle-IsQueue :
      (irreflexive : (k : f.F) → f.f_gt k k ≡ false) (send : ℕ → Transport) (now : ℕ → ℤ)
      (timestamp : ℤ) (s : Settings f x b) (t t' : Terminator f x) (calls : List Call)
      (points : List Text) (m m' : PriorityManager f x b)
      → m.priorities ≡ []
      → cycle f x b send now timestamp s t m ≡ done (t', calls, points, m')
      → IsQueue s m' × (m'.priorities ≡ [])
  unfolding cycle
  cycle-IsQueue irreflexive send now timestamp s t t' calls points m m' empty e =
      let (killed, e0, r0) = >>=-eq-done (kill_pending f x (send 0) now (negsuc 0) t) _ e in
      let (answer, e1, r1) =
        >>=-eq-done (set_up f x (send 1) s.client (pending_search (negsuc 0))) _ r0 in
      let (answered, e2, r2) =
        >>=-eq-done (historical_usage f x b (send 2) s timestamp m.user_list) _ r1 in
      let (planned, e3, r3) = >>=-eq-done (plan f x b s answered.0 answer.0 m) _ r2 in
      let same =
        ap (λ r. r.3)
          (done-injective (killed.0, killed.1, answered.1, planned) (t', calls, points, m') r3) in
      subst (λ m. IsQueue s m × (m.priorities ≡ [])) same
        (plan-IsQueue irreflexive s answered.0 answer.0 m empty e3)
