-- ===== src/PriorityManager/Ranking.antt =====
-- What `do_prioritize` puts into the map of priorities.
use one_fass.Base.{false, Among, All, inl, inr, refl, some, ℤ, List, [], ◌∷◌, ◌≡◌}
use one_fass.Outcome.{or_fault-eq-done, done, >>=-eq-done, done-injective, or_fault}
use one_fass.StdMap.{IsSorted}
use one_fass.StdMap.Presence.{Has, Has-insert, Has-insert_self}
use one_fass.StdMap.Laws.{insert-All, insert-IsSorted}
use one_fass.Floating.{Floating}
use one_fass.User.{User}
use one_fass.Xml.{LibXml}
use one_fass.Xml.VmObject.{VmObject}
use one_fass.VmPool.{Pool}
use one_fass.Plugin.{evaluate_total_usage, BasicPlugin, update_prio}
use one_fass.PriorityManager.{do_prioritize, Priorities, prioritize, find_user}

module _ (f : Floating) (x : LibXml) where
  -- Sorted by falling priority.
  prioritize-IsSorted :
      (p : BasicPlugin) (us : List (User f.F)) (blank : User f.F) (debug : ℤ) (vms : Pool f x)
      (prios : Priorities f x) {r : Priorities f x}
      → IsSorted f.f_gt prios
      → prioritize f x p us blank debug vms prios ≡ done r
      → IsSorted f.f_gt r
  unfolding prioritize
  prioritize-IsSorted p us blank debug [] prios s e = rw (← done-injective _ _ e) s
  prioritize-IsSorted p us blank debug ((key, vm) ∷ vms) prios s e =
      let (prio, made, rest) =
        >>=-eq-done (or_fault (update_prio f p vm.oid (find_user f x vm.uid us blank) debug)) _ e in
      prioritize-IsSorted p us blank debug vms _
        (insert-IsSorted f.f_gt (f.narrow prio) vm.oid prios s) rest

  -- The priority that the plugin gives a VM, as the key that goes into the map.
  abbrev pub Ranked :
      BasicPlugin → List (User f.F) → User f.F → ℤ → ℤ × VmObject f.F x.Doc → f.F → Type 0
  Ranked p us blank debug d key =
      (prio : f.D) × (update_prio f p d.1.oid (find_user f x d.1.uid us blank) debug ≡ some prio)
      × (f.narrow prio ≡ key)

  -- An entry is the id and the priority of one of the VMs.
  abbrev pub Stems : BasicPlugin → List (User f.F) → User f.F → ℤ → Pool f x → f.F × ℤ → Type 0
  Stems p us blank debug vms e =
      (d : ℤ × VmObject f.F x.Doc) × Among d vms × (d.1.oid ≡ e.1) × Ranked p us blank debug d e.0

  prioritize-Stems :
      (p : BasicPlugin) (us : List (User f.F)) (blank : User f.F) (debug : ℤ) (all vms : Pool f x)
      (prios : Priorities f x) {r : Priorities f x}
      → ((d : ℤ × VmObject f.F x.Doc) → Among d vms → Among d all)
      → All (Stems p us blank debug all) prios
      → prioritize f x p us blank debug vms prios ≡ done r
      → All (Stems p us blank debug all) r
  unfolding prioritize
  prioritize-Stems p us blank debug all [] prios sub s e = rw (← done-injective _ _ e) s
  prioritize-Stems p us blank debug all ((key, vm) ∷ vms) prios sub s e =
      let (prio, made, rest) =
        >>=-eq-done (or_fault (update_prio f p vm.oid (find_user f x vm.uid us blank) debug)) _ e in
      prioritize-Stems p us blank debug all vms _ (λ d m. sub d (inr m))
        (insert-All f.f_gt (Stems p us blank debug all) (f.narrow prio) vm.oid prios
          ((key, vm), sub (key, vm) (inl refl), refl, (prio, or_fault-eq-done _ made, refl)) s)
        rest

  prioritize-Has :
      (p : BasicPlugin) (us : List (User f.F)) (blank : User f.F) (debug : ℤ) (vms : Pool f x)
      (prios : Priorities f x) {r : Priorities f x} (key : f.F)
      → Has f.f_gt key prios
      → prioritize f x p us blank debug vms prios ≡ done r
      → Has f.f_gt key r
  unfolding prioritize
  prioritize-Has p us blank debug [] prios key h e = rw (← done-injective _ _ e) h
  prioritize-Has p us blank debug ((k, vm) ∷ vms) prios key h e =
      let (prio, made, rest) =
        >>=-eq-done (or_fault (update_prio f p vm.oid (find_user f x vm.uid us blank) debug)) _ e in
      prioritize-Has p us blank debug vms _ key
        (Has-insert f.f_gt key (f.narrow prio) vm.oid prios h) rest

  -- A VM's key is in the map in the end.
  abbrev pub Covered :
      BasicPlugin
      → List (User f.F)
      → User f.F
      → ℤ
      → Priorities f x
      → ℤ × VmObject f.F x.Doc
      → Type 0
  Covered p us blank debug r d = (key : f.F) × Ranked p us blank debug d key × Has f.f_gt key r

  module _ (irreflexive : (k : f.F) → f.f_gt k k ≡ false) where
    pub prioritize-Covered :
        (p : BasicPlugin) (us : List (User f.F)) (blank : User f.F) (debug : ℤ) (vms : Pool f x)
        (prios : Priorities f x) {r : Priorities f x}
        → prioritize f x p us blank debug vms prios ≡ done r
        → All (Covered p us blank debug r) vms
    unfolding prioritize
    prioritize-Covered p us blank debug [] prios e = tt
    prioritize-Covered p us blank debug ((k, vm) ∷ vms) prios e =
        let (prio, made, rest) =
          >>=-eq-done (or_fault (update_prio f p vm.oid (find_user f x vm.uid us blank) debug)) _
            e in
        (
          (
            f.narrow prio,
            (prio, or_fault-eq-done _ made, refl),
            prioritize-Has p us blank debug vms _ (f.narrow prio)
                (Has-insert_self f.f_gt irreflexive (f.narrow prio) vm.oid prios) rest,
          ),
          prioritize-Covered p us blank debug vms _ rest,
        )

    -- The map of priorities, made from an empty one, if no float is greater than itself: it is
    -- sorted by falling priority; each entry is the id of a pending VM and the priority that the
    -- plugin gives that VM with the last user of its user id; and for each pending VM there is an
    -- entry whose key is neither greater nor less than its priority.
    pub do_prioritize_lem :
        (us : List (User f.F)) (blank : User f.F) (debug : ℤ) (vms : Pool f x) {r : Priorities f x}
        → do_prioritize f x us blank debug vms [] ≡ done r
        → let p = evaluate_total_usage us in
          IsSorted f.f_gt r
          × All (Stems p us blank debug vms) r
          × All (Covered p us blank debug r) vms
    unfolding do_prioritize
    do_prioritize_lem us blank debug vms e =
        let p = evaluate_total_usage us in
        (
          prioritize-IsSorted p us blank debug vms [] tt e,
          prioritize-Stems p us blank debug vms vms [] (λ d m. m) tt e,
          prioritize-Covered p us blank debug vms [] e,
        )
