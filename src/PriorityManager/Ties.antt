-- ===== src/PriorityManager/Ties.antt =====
-- Two pending VMs with one priority: `insert` drops the later one.
use mathlib.Core.Path.{subst}
use mathlib.Core.Option.{some-injective}
use one_fass.Base.{
  ℤ, List, [], ◌∷◌, ◌++◌, ◌≡◌, refl, sym, ◌∙◌, ap, false, All, Among, inl, inr, Option-cases,
}
use one_fass.Outcome.{Outcome, done, throws, faults, blocks, ◌>>=◌}
use one_fass.StdMap.{insert}
use one_fass.StdMap.Laws.{insert_present}
use one_fass.StdMap.Presence.{Has}
use one_fass.Floating.{Floating}
use one_fass.User.{User}
use one_fass.Xml.{LibXml}
use one_fass.Xml.VmObject.{VmObject}
use one_fass.VmPool.{Pool}
use one_fass.Plugin.{BasicPlugin, evaluate_total_usage, update_prio}
use one_fass.PriorityManager.{Priorities, prioritize, do_prioritize, find_user}
use one_fass.PriorityManager.Ranking.{Ranked, Covered, prioritize-Covered}

module _ (f : Floating) (x : LibXml) (us : List (User f.F)) (blank : User f.F) (debug : ℤ) where
  prioritize-append :
      (p : BasicPlugin) (vms more : Pool f x) (prios : Priorities f x)
      → prioritize f x p us blank debug (vms ++ more) prios
        ≡ (prioritize f x p us blank debug vms prios >>= prioritize f x p us blank debug more)
  unfolding prioritize
  prioritize-append p [] more prios = refl
  prioritize-append p ((k, vm) ∷ vms) more prios =
      elim (Option-cases (update_prio f p vm.oid (find_user f x vm.uid us blank) debug)) [
        | inl e ↦ rw e
        | inr (prio, e) ↦
            rw e (prioritize-append p vms more (insert f.f_gt (f.narrow prio) vm.oid prios))
      ]

  -- A VM has one key.
  Ranked-unique :
      (p : BasicPlugin) (d : ℤ × VmObject f.F x.Doc) (k l : f.F)
      → Ranked f x p us blank debug d k
      → Ranked f x p us blank debug d l
      → k ≡ l
  Ranked-unique p d k l (a, ea, ka) (c, ec, kc) =
      sym ka ∙ ap f.narrow (some-injective _ _ (sym ea ∙ ec)) ∙ kc

  prioritize_present :
      (p : BasicPlugin) (e : ℤ × VmObject f.F x.Doc) (more : Pool f x) (prios : Priorities f x)
      (key : f.F)
      → Ranked f x p us blank debug e key
      → Has f.f_gt key prios
      → prioritize f x p us blank debug (e ∷ more) prios
        ≡ prioritize f x p us blank debug more prios
  unfolding prioritize
  prioritize_present p (k, vm) more prios key (prio, made, same_key) (o, h) =
      rw (made, same_key, insert_present f.f_gt key vm.oid o prios h)

  Covered-Has :
      (p : BasicPlugin) (d : ℤ × VmObject f.F x.Doc) (key : f.F) (vms : Pool f x)
      (r : Priorities f x)
      → Among d vms
      → Ranked f x p us blank debug d key
      → All (Covered f x p us blank debug r) vms
      → Has f.f_gt key r
  Covered-Has p d key [] r m k c = absurd m
  Covered-Has p d key (e ∷ vms) r (inl same_vm) k ((key', ranked, has), c) =
      subst (λ l. Has f.f_gt l r)
        (Ranked-unique p e key' key ranked
          (subst (λ v. Ranked f x p us blank debug v key) same_vm k))
        has
  Covered-Has p d key (e ∷ vms) r (inr m) k (h, c) = Covered-Has p d key vms r m k c

  -- If a pending VM has the very priority of one before it, the map of priorities is as if it were
  -- not pending, so it is left out of the queue; no float is to be greater than itself.
  pub do_prioritize_tie :
      (irreflexive : (k : f.F) → f.f_gt k k ≡ false) (before after : Pool f x)
      (d e : ℤ × VmObject f.F x.Doc) (key : f.F)
      → Among d before
      → Ranked f x (evaluate_total_usage us) us blank debug d key
      → Ranked f x (evaluate_total_usage us) us blank debug e key
      → do_prioritize f x us blank debug (before ++ (e ∷ after)) []
        ≡ do_prioritize f x us blank debug (before ++ after) []
  unfolding do_prioritize
  do_prioritize_tie irreflexive before after d e key m kd ke =
      let p = evaluate_total_usage us in
      rw (prioritize-append p before (e ∷ after) [], prioritize-append p before after [])
        (go (prioritize f x p us blank debug before []) refl)
    where
      go :
          (o : Outcome (Priorities f x))
          → prioritize f x (evaluate_total_usage us) us blank debug before [] ≡ o
          → (o >>= prioritize f x (evaluate_total_usage us) us blank debug (e ∷ after))
            ≡ (o >>= prioritize f x (evaluate_total_usage us) us blank debug after)
      go (done r) h =
          let p = evaluate_total_usage us in
          prioritize_present p e after r key ke (
            Covered-Has p d key before r m kd
              (prioritize-Covered f x irreflexive p us blank debug before [] h))
      go throws h = refl
      go faults h = refl
      go blocks h = refl
