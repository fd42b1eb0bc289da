-- ===== src/VmPool/Objects.antt =====
-- What `set_up` leaves in the pool.
use one_fass.Base.{
  refl, arith, inl, inr, ◌==ℤ◌, negsuc, ◌∷◌, ◌⊎◌, List, Bool-cases, pos, [], ℤ, ltb_ℤ, ◌≡◌, All,
}
use one_fass.Outcome.{or_throw, >>=-eq-done, done-injective, done}
use one_fass.StdMap.{IsSorted}
use one_fass.StdMap.Laws.{insert-All, insert-IsSorted}
use one_fass.Floating.{Floating}
use one_fass.Xml.{LibXml}
use one_fass.VmPool.{
  get_nodes, as_array, make_vm, as_string, as_boolean, element, load_vms, Value, XmlRpcClient, Text,
  Transport, set_up, add_objects, add_object, read_pool, Pool,
}

module _ (f : Floating) (x : LibXml) where
  -- Each VM stands under its own id, and the ids rise along the map.
  pub record IsValid (objects : Pool f x) : Type 0 where
    pub keyed : All (λ e. e.0 ≡ e.1.oid) objects
    pub sorted : IsSorted ltb_ℤ objects

  empty-IsValid : IsValid []
  empty-IsValid = record { keyed = tt; sorted = tt }

  add_object-IsValid :
      (node : x.Node) (objects : Pool f x) {after : Pool f x}
      → IsValid objects
      → add_object f x node objects ≡ done after
      → IsValid after
  unfolding add_object
  add_object-IsValid node objects v e = elim (Bool-cases (x.has_children node)) [
    | inr skipped ↦ let same = rw skipped at e in ground (arith, same)
    | inl ok ↦
        let (vm, made, added) = >>=-eq-done (make_vm f x node) _ (rw ok at e) in
        rw (← done-injective _ _ added) (record {
          keyed = insert-All ltb_ℤ (λ e. e.0 ≡ e.1.oid) vm.oid vm objects refl v.keyed;
          sorted = insert-IsSorted ltb_ℤ vm.oid vm objects v.sorted;
        })
  ]

  add_objects-IsValid :
      (nodes : List x.Node) (objects : Pool f x) {after : Pool f x}
      → IsValid objects
      → add_objects f x nodes objects ≡ done after
      → IsValid after
  unfolding add_objects
  add_objects-IsValid [] objects v e = rw (← done-injective _ _ e) v
  add_objects-IsValid (n ∷ ns) objects v e =
      let (added, one, all) = >>=-eq-done (add_object f x n objects) _ e in
      add_objects-IsValid ns added (add_object-IsValid n objects v one) all

  -- A pool and a return code that belong together.
  abbrev pub IsAnswer : Pool f x × ℤ → Type 0
  IsAnswer (objects, rc) = IsValid objects × ((rc ≡ pos 0) ⊎ ((rc ≡ negsuc 0) × (objects ≡ [])))

  read_pool-IsAnswer :
      (expr : Text) (values : List Value) {r : Pool f x × ℤ}
      → read_pool f x expr values ≡ done r
      → IsAnswer r
  unfolding read_pool
  read_pool-IsAnswer expr values e =
      let (first, e1, r1) = >>=-eq-done (element 0 values) _ e in
      let (success, e2, r2) = >>=-eq-done (as_boolean first) _ r1 in
      let (second, e3, r3) = >>=-eq-done (element 1 values) _ r2 in
      elim (Bool-cases success) [
        | inr refused ↦
            let (message, e4, r4) = >>=-eq-done (as_string second) _ (rw refused at r3) in
            rw (← done-injective _ _ r4) (empty-IsValid, inr (refl, refl))
        | inl answered ↦
            let (vmlist, e4, r4) = >>=-eq-done (as_string second) _ (rw answered at r3) in
            let (doc, e5, r5) = >>=-eq-done (or_throw (x.read_memory vmlist)) _ r4 in
            let (objects, e6, r6) = >>=-eq-done (add_objects f x (get_nodes x doc expr) []) _ r5 in
            rw (← done-injective _ _ r6) (add_objects-IsValid _ [] empty-IsValid e6, inl refl)
      ]

  -- When `set_up` returns, each VM of the pool stands under its own id and the ids rise along the
  -- map; the return code is 0, or it is -1 and the pool is empty.
  pub set_up-IsAnswer :
      (send : Transport) (client : XmlRpcClient) (expr : Text) {r : Pool f x × ℤ}
      → set_up f x send client expr ≡ done r
      → IsAnswer r
  unfolding set_up
  set_up-IsAnswer send client expr e = elim (Bool-cases ((load_vms f x send client).0 ==ℤ pos 0)) [
    | inr failed ↦ rw (← done-injective _ _ (rw failed at e)) (empty-IsValid, inr (refl, refl))
    | inl loaded ↦
        let (values, e1, r1) =
          >>=-eq-done (as_array (load_vms f x send client).1) _ (rw loaded at e) in
        read_pool-IsAnswer expr values r1
  ]
