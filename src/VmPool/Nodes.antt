-- ===== src/VmPool/Nodes.antt =====
-- The queue as the nodes of its VMs.
use one_fass.Base.{sym, ℤ, some, List, [], ◌∷◌, ◌++◌, ◌≡◌, ap, sym, ◌∙◌}
use one_fass.Text.{Text, codes}
use one_fass.Outcome.{done, or_fault, >>=-eq-done, done-injective, or_fault-eq-done}
use one_fass.StdMap.{Map}
use one_fass.Floating.{Floating}
use one_fass.Xml.{LibXml}
use one_fass.Xml.VmObject.{VmObject, dump_node}
use one_fass.VmPool.{Pool, get, set_priority, make_nodes, make_queue}

abbrev pub concat : List Text → Text
concat [] = []
concat (w ∷ ws) = w ++ concat ws

module _ (f : Floating) (x : LibXml) where
  -- The text is the dump of the VM with the id, with the priority set.
  abbrev pub IsNode : Pool f x → f.F × ℤ → Text → Type 0
  IsNode objects (prio, oid) text =
      (vm : VmObject f.F x.Doc) × (node : Text) × (get f x oid objects ≡ some vm)
      × (dump_node f x vm ≡ done node)
      × (set_priority f x prio node ≡ done text)

  abbrev pub AreNodes : Pool f x → Map f.F ℤ → List Text → Type 0
  AreNodes objects [] [] = Unit
  AreNodes objects [] (t ∷ ts) = ⊥
  AreNodes objects (e ∷ prios) [] = ⊥
  AreNodes objects (e ∷ prios) (t ∷ ts) = IsNode objects e t × AreNodes objects prios ts

  make_nodes_inv :
      (objects : Pool f x) (prios : Map f.F ℤ) {text : Text}
      → make_nodes f x objects prios ≡ done text
      → (texts : List Text) × AreNodes objects prios texts × (text ≡ concat texts)
  unfolding make_nodes
  make_nodes_inv objects [] e = ([], tt, sym (done-injective _ _ e))
  make_nodes_inv objects ((prio, oid) ∷ prios) e =
      let (vm, e0, r0) = >>=-eq-done (or_fault (get f x oid objects)) _ e in
      let (node, e1, r1) = >>=-eq-done (dump_node f x vm) _ r0 in
      let (edited, e2, r2) = >>=-eq-done (set_priority f x prio node) _ r1 in
      let (rest, e3, r3) = >>=-eq-done (make_nodes f x objects prios) _ r2 in
      let (texts, nodes, same) = make_nodes_inv objects prios e3 in
      (
        edited ∷ texts,
        ((vm, node, or_fault-eq-done _ e0, e1, e2), nodes),
        sym (done-injective _ _ r3) ∙ ap (λ t. edited ++ t) same,
      )

  pub make_queue_inv :
      (objects : Pool f x) (prios : Map f.F ℤ) {queue : Text}
      → make_queue f x objects prios ≡ done queue
      → (texts : List Text) × AreNodes objects prios texts
        × (queue ≡ codes "<VM_POOL>" ++ (concat texts ++ codes "</VM_POOL>"))
  unfolding make_queue
  make_queue_inv objects prios e =
      let (text, e0, r0) = >>=-eq-done (make_nodes f x objects prios) _ e in
      let (texts, nodes, same) = make_nodes_inv objects prios e0 in
      (
        texts,
        nodes,
        sym (done-injective _ _ r0) ∙ ap (λ t. codes "<VM_POOL>" ++ (t ++ codes "</VM_POOL>")) same,
      )
