-- ===== src/PriorityManager/Queue.antt =====
-- The queue that a round of the priority manager leaves.
use mathlib.Core.Path.{subst}
use one_fass.Base.{
  sym, ap, negsuc, ◌∙◌, All-map, ℕ, ℤ, negsuc, ltb_ℤ, false, List, [], ◌∷◌, ◌≡◌, ◌≢◌, All, Among,
  inl, inr, ap, arith,
}
use one_fass.Text.{codes}
use one_fass.Outcome.{done, faults, >>=-eq-done, done-injective}
use one_fass.StdMap.Presence.{Has, Has-Among}
use one_fass.Floating.{Floating}
use one_fass.User.{User}
use one_fass.Xml.{LibXml}
use one_fass.Xml.VmObject.{VmObject}
use one_fass.Plugin.{BasicPlugin, evaluate_total_usage}
use one_fass.Boost.{Boost}
use one_fass.Client.{Transport}
use one_fass.Terminator.{Terminator, Call, kill_pending}
use one_fass.VmPool.{set_up, pending_search}
use one_fass.PriorityManager.Cycle.{Settings, PriorityManager, cycle, plan, historical_usage}
use one_fass.VmPool.{Pool, make_queue}
use one_fass.VmPool.Objects.{IsValid, IsAnswer, set_up-IsAnswer}
use one_fass.VmPool.Faults.{make_queue_present, make_queue_empty}
use one_fass.PriorityManager.{Text, Priorities, do_prioritize}
use one_fass.PriorityManager.Ranking.{Stems, do_prioritize_lem}

irreflexive_ℤ : (k : ℤ) → ltb_ℤ k k ≡ false
irreflexive_ℤ k = ground arith

module _ (f : Floating) (x : LibXml) where
  keyed_at :
      (objects : Pool f x) (d : ℤ × VmObject f.F x.Doc)
      → All (λ e. e.0 ≡ e.1.oid) objects
      → Among d objects
      → d.0 ≡ d.1.oid
  keyed_at [] d h m = absurd m
  keyed_at (e ∷ objects) d (k, h) (inl same) = rw same k
  keyed_at (e ∷ objects) d (k, h) (inr m) = keyed_at objects d h m

  module _ (irreflexive : (k : f.F) → f.f_gt k k ≡ false) where
    Stems-present :
        (us : List (User f.F)) (blank : User f.F) (debug : ℤ) (objects : Pool f x) (p : BasicPlugin)
        (e : f.F × ℤ)
        → IsValid f x objects
        → Stems f x p us blank debug objects e
        → Has ltb_ℤ e.1 objects
    Stems-present us blank debug objects p e v (d, m, same, ranked) =
        subst (λ k. Has ltb_ℤ k objects) (keyed_at objects d v.keyed m ∙ same)
          (Has-Among ltb_ℤ irreflexive_ℤ d objects m)

    -- No read through a null pointer happens while the queue is made of the priorities that
    -- `do_prioritize` gives a pool in which each VM stands under its own id, if no float is
    -- greater than itself.
    pub do_prioritize-make_queue :
        (us : List (User f.F)) (blank : User f.F) (debug : ℤ) (objects : Pool f x)
        {prios : Priorities f x}
        → IsValid f x objects
        → do_prioritize f x us blank debug objects [] ≡ done prios
        → make_queue f x objects prios ≢ faults
    do_prioritize-make_queue us blank debug objects {prios} v e =
        let (sorted, stems, covered) = do_prioritize_lem f x irreflexive us blank debug objects e in
        make_queue_present f x objects prios (
          All-map (λ e s. Stems-present us blank debug objects (evaluate_total_usage us) e v s)
            prios stems)

  -- Without pending VMs and without priorities the queue is empty.
  plan_empty :
      (b : Boost f.F) (s : Settings f x b) (us : List (User f.F)) (m : PriorityManager f x b)
      → m.priorities ≡ []
      → plan f x b s us [] m
        ≡ done (record {
          user_list = us;
          vmpool = [];
          priorities = [];
          queue = codes "<VM_POOL></VM_POOL>";
        })
  unfolding plan do_prioritize
  plan_empty b s us m e = rw (e, make_queue_empty f x)

  IsAnswer-failed : (objects : Pool f x) → IsAnswer f x (objects, negsuc 0) → objects ≡ []
  IsAnswer-failed objects (v, inl rc) = ground (arith, rc)
  IsAnswer-failed objects (v, inr (rc, none_left)) = none_left

  -- A round in which the pending VMs cannot be retrieved leaves the queue empty, not as it was, if it
  -- comes to its end and began without priorities; it ends without priorities again.
  pub cycle_failed :
      (b : Boost f.F) (send : ℕ → Transport) (now : ℕ → ℤ) (timestamp : ℤ) (s : Settings f x b)
      (t t' : Terminator f x) (calls : List Call) (points : List Text)
      (m m' : PriorityManager f x b) (objects : Pool f x)
      → m.priorities ≡ []
      → set_up f x (send 1) s.client (pending_search (negsuc 0)) ≡ done (objects, negsuc 0)
      → cycle f x b send now timestamp s t m ≡ done (t', calls, points, m')
      → (m'.queue ≡ codes "<VM_POOL></VM_POOL>") × (m'.priorities ≡ [])
  unfolding cycle
  cycle_failed b send now timestamp s t t' calls points m m' objects empty failed e =
      let (killed, e0, r0) = >>=-eq-done (kill_pending f x (send 0) now (negsuc 0) t) _ e in
      let (answer, e1, r1) =
        >>=-eq-done (set_up f x (send 1) s.client (pending_search (negsuc 0))) _ r0 in
      let (answered, e2, r2) =
        >>=-eq-done (historical_usage f x b (send 2) s timestamp m.user_list) _ r1 in
      let (planned, e3, r3) = >>=-eq-done (plan f x b s answered.0 answer.0 m) _ r2 in
      let same_answer = done-injective answer (objects, negsuc 0) (sym e1 ∙ failed) in
      let gone : answer.0 ≡ [] =
        ap (λ a. a.0) same_answer
        ∙ IsAnswer-failed objects
            (set_up-IsAnswer f x (send 1) s.client (pending_search (negsuc 0)) failed) in
      let left = done-injective _ _ (
        sym (plan_empty b s answered.0 m empty)
        ∙ ap (λ o. plan f x b s answered.0 o m) (sym gone)
        ∙ e3) in
      let same =
        left
        ∙ ap (λ r. r.3)
            (done-injective (killed.0, killed.1, answered.1, planned) (t', calls, points, m') r3) in
      (sym (ap (λ p. p.queue) same), sym (ap (λ p. p.priorities) same))
