-- ===== src/VmPool/Faults.antt =====
-- When `make_queue` follows no null pointer.
use mathlib.Core.Path.{subst}
use one_fass.Base.{
  ◌≡◌, refl, ◌+◌, ◌-◌, ◌%◌, ℤ, ltb_ℤ, Option, none, some, [], ◌∷◌, ◌≢◌, All, inl, inr, Option-cases,
}
use one_fass.Text.{Text, codes, find?, find, insert, erase, npos, size_mod}
use one_fass.Outcome.{Outcome, done, throws, faults, blocks, ◌>>=◌, or_throw}
use one_fass.StdMap.{Map}
use one_fass.StdMap.Presence.{Has}
use one_fass.Floating.{Floating}
use one_fass.Xml.{LibXml}
use one_fass.Xml.VmObject.{VmObject, dump_node}
use one_fass.VmPool.{Pool, get, set_priority, prio_node, make_nodes, make_queue}

-- The call does anything but read where there is nothing.
abbrev NoFault : {A : Type 0} → Outcome A → Type 0
NoFault (done a) = Unit
NoFault throws = Unit
NoFault faults = ⊥
NoFault blocks = Unit

>>=-NoFault :
    {A B : Type 0} (m : Outcome A) (g : A → Outcome B)
    → NoFault m
    → ((a : A) → NoFault (g a))
    → NoFault (m >>= g)
>>=-NoFault (done a) g h k = k a
>>=-NoFault throws g h k = tt
>>=-NoFault faults g h k = h
>>=-NoFault blocks g h k = tt

or_throw-NoFault : {A : Type 0} (o : Option A) → NoFault (or_throw o)
or_throw-NoFault none = tt
or_throw-NoFault (some a) = tt

module _ (f : Floating) (x : LibXml) where
  dump_node-NoFault : (vm : VmObject f.F x.Doc) → NoFault (dump_node f x vm)
  unfolding dump_node
  dump_node-NoFault vm =
      >>=-NoFault (or_throw (erase 0 (find (codes "<VM>") (x.dump vm.xml)) (x.dump vm.xml))) _
        (or_throw-NoFault (erase 0 (find (codes "<VM>") (x.dump vm.xml)) (x.dump vm.xml)))
        (λ cut. or_throw-NoFault (erase ((find (codes "</VM>") cut + 5) % size_mod) npos cut))

  set_priority-NoFault : (prio : f.F) (node : Text) → NoFault (set_priority f x prio node)
  unfolding set_priority
  set_priority-NoFault prio node = elim (Option-cases (find? (codes "USER_PRIORITY") node)) [
    | inl e ↦
        rw (e, set_priority)
          (or_throw-NoFault (
            insert ((find (codes "<USER_TEMPLATE>") node + 15) % size_mod) (prio_node f x prio)
              node))
    | inr (i, e) ↦
        let start = find (codes "<USER_PRIORITY>") node in
        let end = find (codes "</USER_PRIORITY>") node in
        let cut = erase start ((end + 16 + size_mod - start) % size_mod) node in
        rw (e, set_priority)
          (>>=-NoFault (or_throw cut) _ (or_throw-NoFault cut)
            (λ rest. or_throw-NoFault (insert start (prio_node f x prio) rest)))
  ]

  make_nodes_present :
      (objects : Pool f x) (prios : Map f.F ℤ)
      → All (λ e. Has ltb_ℤ e.1 objects) prios
      → NoFault (make_nodes f x objects prios)
  unfolding make_nodes get
  make_nodes_present objects [] h = tt
  make_nodes_present objects ((prio, oid) ∷ prios) ((vm, at), h) = rw at (
      >>=-NoFault (dump_node f x vm) _ (dump_node-NoFault vm) (λ node.
        >>=-NoFault (set_priority f x prio node) _ (set_priority-NoFault prio node) (λ edited.
          >>=-NoFault (make_nodes f x objects prios) _ (make_nodes_present objects prios h)
            (λ rest. tt))))

  pub make_queue_present :
      (objects : Pool f x) (prios : Map f.F ℤ)
      → All (λ e. Has ltb_ℤ e.1 objects) prios
      → make_queue f x objects prios ≢ faults
  unfolding make_queue
  make_queue_present objects prios h e = subst NoFault e (
      >>=-NoFault (make_nodes f x objects prios) _ (make_nodes_present objects prios h)
        (λ nodes. tt))

  pub make_queue_empty : make_queue f x [] [] ≡ done (codes "<VM_POOL></VM_POOL>")
  unfolding make_queue
  make_queue_empty = refl
