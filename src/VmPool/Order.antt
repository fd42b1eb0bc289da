-- ===== src/VmPool/Order.antt =====
-- The pool does not depend on the order in which OpenNebula lists the virtual machines: what is read
-- from an answer is a function on the answers up to swaps of neighbours with different ids.
use mathlib.Core.Quot
use mathlib.Core.Quot.{Quot}
use mathlib.Core.Option.{some-injective}
use one_fass.Base.{
  pos, negsuc, ltb_ℤ, true, Option, none, some, List, [], ◌∷◌, ◌≡◌, ◌≢◌, refl, sym, ap, ◌∙◌, inl,
  inr, Bool-cases,
}
use one_fass.Outcome.{Outcome, done, throws, faults, blocks, ◌>>=◌}
use one_fass.StdMap
use one_fass.StdMap.Order.{insert_comm}
use one_fass.Floating.{Floating}
use one_fass.Xml.{LibXml}
use one_fass.Xml.VmObject.{VmObject, make_vm}
use one_fass.Text.{Text, codes}
use one_fass.Xml.{get_nodes}
use one_fass.Client.{Transport, XmlRpcClient, Value, int, array, boolean, string, of_list, call}
use one_fass.VmPool.{set_up, load_vms, read_pool, Pool, add_object, add_objects}

-- What a call returns, if it does.
abbrev pub returned : {A : Type 0} → Outcome A → Option A
returned (done a) = some a
returned _ = none

bind_none :
    {A B : Type 0} (m : Outcome A) (g : A → Outcome B)
    → returned m ≡ none
    → returned (m >>= g) ≡ none
bind_none (done a) g e = cc
bind_none throws g e = refl
bind_none faults g e = refl
bind_none blocks g e = refl

pub returned-bind :
    {A B : Type 0} (m : Outcome A) (g h : A → Outcome B)
    → ((a : A) → returned (g a) ≡ returned (h a))
    → returned (m >>= g) ≡ returned (m >>= h)
returned-bind (done a) g h e = e a
returned-bind throws g h e = refl
returned-bind faults g h e = refl
returned-bind blocks g h e = refl

>>=_assoc :
    {A B C : Type 0} (m : Outcome A) (g : A → Outcome B) (h : B → Outcome C)
    → ((m >>= g) >>= h) ≡ (m >>= λ a. g a >>= h)
>>=_assoc (done a) g h = refl
>>=_assoc throws g h = refl
>>=_assoc faults g h = refl
>>=_assoc blocks g h = refl

pub returned_then :
    {A B : Type 0} (m n : Outcome A) (g : A → Outcome B)
    → returned m ≡ returned n
    → returned (m >>= g) ≡ returned (n >>= g)
returned_then (done a) (done b) g e = ap (λ c. returned (g c)) (some-injective _ _ e)
returned_then (done a) throws g e = cc
returned_then (done a) faults g e = cc
returned_then (done a) blocks g e = cc
returned_then throws n g e = sym (bind_none n g (sym e))
returned_then faults n g e = sym (bind_none n g (sym e))
returned_then blocks n g e = sym (bind_none n g (sym e))

module _ (f : Floating) (x : LibXml) where
  -- The nodes are not those of one virtual machine.
  abbrev pub Apart : x.Node → x.Node → Type 0
  Apart m n =
      (vm other : VmObject f.F x.Doc)
      → make_vm f x m ≡ done vm
      → make_vm f x n ≡ done other
      → vm.oid ≢ other.oid

  pub data Swapped : List x.Node → List x.Node → Type 0 where
    swap : (m n : x.Node) (ns : List x.Node) → Apart m n → Swapped (m ∷ n ∷ ns) (n ∷ m ∷ ns)
    under : (n : x.Node) {ms ns : List x.Node} → Swapped ms ns → Swapped (n ∷ ms) (n ∷ ns)

  -- What a node does to a pool: it ends the reading, it is skipped, or it puts a machine there.
  data Effect (n : x.Node) : Type 0 where
    ends : ((o : Pool f x) → returned (add_object f x n o) ≡ none) → Effect n
    skips : ((o : Pool f x) → add_object f x n o ≡ done o) → Effect n
    puts :
        (vm : VmObject f.F x.Doc)
        → make_vm f x n ≡ done vm
        → ((o : Pool f x) → add_object f x n o ≡ done (StdMap.insert ltb_ℤ vm.oid vm o))
        → Effect n

  effect : (n : x.Node) → Effect n
  unfolding add_object
  effect n = elim (Bool-cases (x.has_children n)) [
    | inr none_there ↦ skips (λ o. rw none_there refl)
    | inl there ↦ made there (make_vm f x n) refl
  ]
    where
      made :
          x.has_children n ≡ true
          → (r : Outcome (VmObject f.F x.Doc)) → make_vm f x n ≡ r
          → Effect n
      made there (done vm) e = puts vm e (λ o. rw (there, e) refl)
      made there throws e = ends (λ o. rw (there, e) refl)
      made there faults e = ends (λ o. rw (there, e) refl)
      made there blocks e = ends (λ o. rw (there, e) refl)

  -- Two nodes, one after the other.
  both : x.Node → x.Node → Pool f x → Outcome (Pool f x)
  both m n o = add_object f x m o >>= add_object f x n

  both_swapped :
      (m n : x.Node) → Apart m n → (o : Pool f x) → returned (both m n o) ≡ returned (both n m o)
  unfolding both
  both_swapped m n apart o = by_effects (effect m) (effect n)
    where
      by_effects : Effect m → Effect n → returned (both m n o) ≡ returned (both n m o)
      by_effects (ends e) (ends d) = bind_none _ _ (e o) ∙ sym (bind_none _ _ (d o))
      by_effects (ends e) (skips d) = bind_none _ _ (e o) ∙ sym (rw (d o) (e o))
      by_effects (ends e) (puts vm made d) =
          bind_none _ _ (e o) ∙ sym (rw (d o) (e (StdMap.insert ltb_ℤ vm.oid vm o)))
      by_effects (skips e) (ends d) = rw (e o) (d o) ∙ sym (bind_none _ _ (d o))
      by_effects (skips e) (skips d) = rw (e o, d o, e o) refl
      by_effects (skips e) (puts vm made d) =
          rw (e o, d o, e (StdMap.insert ltb_ℤ vm.oid vm o)) refl
      by_effects (puts vm made e) (ends d) =
          rw (e o) (d (StdMap.insert ltb_ℤ vm.oid vm o)) ∙ sym (bind_none _ _ (d o))
      by_effects (puts vm made e) (skips d) =
          rw (e o, d (StdMap.insert ltb_ℤ vm.oid vm o), d o, e o) refl
      by_effects (puts vm made e) (puts other read d) =
          rw
            (
              e o,
              d o,
              d (StdMap.insert ltb_ℤ vm.oid vm o),
              e (StdMap.insert ltb_ℤ other.oid other o),
            )
            (ap some
              (insert_comm other.oid vm.oid other vm o (λ q. apart vm other made read (sym q))))

  add_objects-Swapped :
      {ms ns : List x.Node}
      → Swapped ms ns
      → (o : Pool f x) → returned (add_objects f x ms o) ≡ returned (add_objects f x ns o)
  unfolding add_objects both
  add_objects-Swapped (swap m n ns apart) o =
      let then : Pool f x → Outcome (Pool f x) = add_objects f x ns in
      ap returned (sym (>>=_assoc (add_object f x m o) (add_object f x n) then))
      ∙ returned_then (both m n o) (both n m o) then (both_swapped m n apart o)
      ∙ ap returned (>>=_assoc (add_object f x n o) (add_object f x m) then)
  add_objects-Swapped (under n s) o =
      returned-bind (add_object f x n o) _ _ (λ added. add_objects-Swapped s added)

  -- An answer, without the order of the nodes of different machines.
  abbrev pub Answer : Type 0
  Answer = Quot Swapped

  module _ (floats : IsSet f.F) (docs : IsSet x.Doc) where
    pool_set : IsSet (Option (Pool f x))
    pool_set = hlevel

    unfoldable pool_of : Answer → Option (Pool f x)
    pool_of =
        Quot.lift pool_set (λ ns. returned (add_objects f x ns []))
          (λ ms ns s. add_objects-Swapped s [])

    pub add_objects-Answer :
        (ms ns : List x.Node)
        → ◌≡◌ {A = Answer} (Quot.mk ms) (Quot.mk ns)
        → returned (add_objects f x ms []) ≡ returned (add_objects f x ns [])
    unfolding pool_of
    add_objects-Answer ms ns e = ap pool_of e

  -- OpenNebula lists the machines of a document.
  pub record Lists (send : Transport) (client : XmlRpcClient) (doc : x.Doc) : Type 0 where
    pub text : Text
    pub more : List Value
    pub answers :
        call send client
          (codes "one.vmpool.info")
          (int (negsuc 1) ∷ int (negsuc 0) ∷ int (negsuc 0) ∷ int (negsuc 0) ∷ [])
        ≡ done (some (array (of_list (boolean true ∷ string text ∷ more))))
    pub parses : x.read_memory text ≡ some doc

  load_vms-Lists :
      (send : Transport) (client : XmlRpcClient) (doc : x.Doc) (l : Lists send client doc)
      → load_vms f x send client
        ≡ (pos 0, some (array (of_list (boolean true ∷ string l.text ∷ l.more))))
  unfolding load_vms
  load_vms-Lists send client doc l = rw (load_vms, l.answers) refl

  set_up-Lists :
      (send : Transport) (client : XmlRpcClient) (expr : Text) (doc : x.Doc)
      → Lists send client doc
      → set_up f x send client expr
        ≡ (add_objects f x (get_nodes x doc expr) [] >>= λ objects. done (objects, pos 0))
  unfolding set_up read_pool
  set_up-Lists send client expr doc l = rw (set_up, load_vms-Lists send client doc l, l.parses) refl

  pub set_up-Answer :
      (floats : IsSet f.F) (docs : IsSet x.Doc) (send other : Transport) (client : XmlRpcClient)
      (expr : Text) (doc reordered : x.Doc)
      → Lists send client doc
      → Lists other client reordered
      → ◌≡◌ {A = Answer} (Quot.mk (get_nodes x doc expr)) (Quot.mk (get_nodes x reordered expr))
      → returned (set_up f x send client expr) ≡ returned (set_up f x other client expr)
  set_up-Answer floats docs send other client expr doc reordered l k e =
      ap returned (set_up-Lists send client expr doc l)
      ∙ returned_then (add_objects f x (get_nodes x doc expr) [])
          (add_objects f x (get_nodes x reordered expr) []) (λ objects. done (objects, pos 0))
          (add_objects-Answer floats docs _ _ e)
      ∙ ap returned (sym (set_up-Lists other client expr reordered k))
