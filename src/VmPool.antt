-- ===== src/VmPool.antt =====
-- src/xml/VMPool.cc and include/VMPool.h: the virtual machines that one call of OpenNebula returned.
pub mod Objects
pub mod Order
pub mod Queue
pub mod Faults
pub mod Nodes
pub mod Sample
mod Examples
use one_fass.Base.{
  ℕ, ◌+◌, ◌-◌, ℤ, pos, negsuc, ltb_ℤ, ◌==ℤ◌, ◌==◌, not, Bool, true, false, Option, none, some, List,
  [], ◌∷◌, ◌++◌, if◌then◌else◌, ◌%◌, zero, suc,
}
use one_fass.Text.{Text, codes, find, find?, npos, size_mod, erase, insert}
use one_fass.Text.Decimal.{dec}
use one_fass.Outcome.{element, Outcome, done, throws, faults, ◌>>=◌, or_throw, or_fault}
use one_fass.StdMap
use one_fass.StdMap.{Map}
use one_fass.Floating.{Floating}
use one_fass.Xml.{LibXml, get_nodes}
use one_fass.Xml.VmObject.{VmObject, make_vm, dump_node}
use one_fass.Client.{Value, int, Transport, XmlRpcClient, call, as_array, as_boolean, as_string}

-- `get_pending()`, `get_pending(uid)`, `get_running()` and `get_running(uid)` differ in the nodes that
-- they search for. -1 stands for all users in `get_pending(int)`.
abbrev pub pending_search : ℤ → Text
pending_search uid =
    if uid ==ℤ negsuc 0
    then codes "/VM_POOL/VM[STATE=1 or ((LCM_STATE=3 or LCM_STATE=16) and RESCHED=1)]"
    else codes "/VM_POOL/VM[(STATE=1 or ((LCM_STATE=3 or LCM_STATE=16) and RESCHED=1)) and UID="
      ++ (dec uid ++ codes "]")

abbrev pub running_search : ℤ → Text
running_search uid = codes "/VM_POOL/VM[STATE=3 and UID=" ++ (dec uid ++ codes "]")

module _ (f : Floating) (x : LibXml) where
  open f use {F, f_write}
  open x use {Doc, Node, read_memory, has_children}

  -- The map of VMs.
  abbrev pub Pool : Type 0
  Pool = Map ℤ (VmObject F Doc)

  -- A node without two children is logged and skipped; a second VM with the same id is dropped.
  add_object : Node → Pool → Outcome Pool
  add_object node objects = if has_children node then add_vm else done objects
    where
      add_vm : Outcome Pool
      add_vm = do vm ← make_vm f x node; done (StdMap.insert ltb_ℤ vm.oid vm objects)

  pub add_objects : List Node → Pool → Outcome Pool
  unfolding add_object
  add_objects [] objects = done objects
  add_objects (n ∷ ns) objects = do added ← add_object n objects; add_objects ns added

  -- `load_vms`: -1 if the call throws.
  load_vms : Transport → XmlRpcClient → ℤ × Option Value
  load_vms send client =
      elim (call send client (codes "one.vmpool.info")
        (int (negsuc 1) ∷ int (negsuc 0) ∷ int (negsuc 0) ∷ int (negsuc 0) ∷ [])) [
          | done result ↦ (pos 0, result)
          | _ ↦ (negsuc 0, none)
        ]

  read_pool : Text → List Value → Outcome (Pool × ℤ)
  unfolding add_objects
  read_pool expr values = do
    first ← element 0 values
    success ← as_boolean first
    second ← element 1 values
    if success then parsed second else refused second
    where
      refused : Value → Outcome (Pool × ℤ)
      refused v = do message ← as_string v; done ([], negsuc 0)

      parsed : Value → Outcome (Pool × ℤ)
      parsed v = do
        vmlist ← as_string v
        doc ← or_throw (read_memory vmlist)
        objects ← add_objects (get_nodes x doc expr) []
        done (objects, pos 0)

  -- `set_up`, from a pool that is flushed first: the new pool and the return code.
  pub set_up : Transport → XmlRpcClient → Text → Outcome (Pool × ℤ)
  unfolding load_vms read_pool
  set_up send client expr =
      let (rc, result) = load_vms send client in
      if rc ==ℤ pos 0 then (as_array result >>= read_pool expr) else done ([], negsuc 0)

  unfoldable pub get : ℤ → Pool → Option (VmObject F Doc)
  get oid objects = StdMap.find ltb_ℤ oid objects

  -- `lexical_cast<string>(prio)` between the tags.
  abbrev pub prio_node : F → Text
  prio_node prio = codes "<USER_PRIORITY>" ++ (f_write prio ++ codes "</USER_PRIORITY>")

  -- The body of the loop of `make_queue`: the node with its new priority.
  pub set_priority : F → Text → Outcome Text
  set_priority prio node = elim (find? (codes "USER_PRIORITY") node) [
    | some i ↦ replace (find (codes "<USER_PRIORITY>") node) (find (codes "</USER_PRIORITY>") node)
    | none ↦
        or_throw
          (insert ((find (codes "<USER_TEMPLATE>") node + 15) % size_mod) (prio_node prio) node)
  ]
    where
      replace : ℕ → ℕ → Outcome Text
      replace start end = do
        rest ← or_throw (erase start ((end + 16 + size_mod - start) % size_mod) node)
        or_throw (insert start (prio_node prio) rest)

  make_nodes : Pool → Map F ℤ → Outcome Text
  unfolding set_priority
  make_nodes objects [] = done []
  make_nodes objects ((prio, oid) ∷ prios) = do
    vm ← or_fault (get oid objects)
    node ← dump_node f x vm
    edited ← set_priority prio node
    rest ← make_nodes objects prios
    done (edited ++ rest)

  pub make_queue : Pool → Map F ℤ → Outcome Text
  unfolding make_nodes
  make_queue objects prios = do
    nodes ← make_nodes objects prios
    done (codes "<VM_POOL>" ++ (nodes ++ codes "</VM_POOL>"))
