-- ===== src/AcctPool/SetUp.antt =====
-- `AcctPool::set_up` and what it calls: the accounting entries of the known users, from one call of
-- OpenNebula.
pub mod Known
mod Examples
use one_fass.Base.{
  narrow_int, ℤ, pos, negsuc, ltb_ℤ, ◌==ℤ◌, true, false, Option, none, some, List, [], ◌∷◌, ◌++◌,
  if◌then◌else◌,
}
use one_fass.Text.{Text, codes}
use one_fass.Text.Decimal.{dec}
use one_fass.Outcome.{Outcome, done, ◌>>=◌, or_throw, element}
use one_fass.StdMap
use one_fass.StdMap.{Map}
use one_fass.Floating.{Floating}
use one_fass.Xml.{LibXml, get_nodes, xpath, read_int32, read_int64}
use one_fass.Client.{Value, int, Transport, XmlRpcClient, call, as_array, as_boolean, as_string}
use one_fass.AcctPool.{AcctObject}

module _ (f : Floating) (x : LibXml) where
  open f use {F, f_of_int, f_zero}
  open x use {Doc, Node, document, read_memory, has_children, read_float}

  abbrev pub Entries : Type 0
  Entries = Map ℤ (List (AcctObject F))

  -- The constructor of AcctObject.
  make_acct : Node → Outcome (AcctObject F)
  make_acct node = do
    doc ← or_throw (document node)
    oid ← xpath x read_int32 doc (codes "/HISTORY/OID") (negsuc 0)
    uid ← xpath x read_int32 doc (codes "/HISTORY/VM/UID") (negsuc 0)
    vmid ← xpath x read_int32 doc (codes "/HISTORY/VM/ID") (negsuc 0)
    static_vm ← xpath x read_int32 doc (codes "/HISTORY/VM/USER_TEMPLATE/STATIC_VM") (pos 1)
    memory ← xpath x read_int32 doc (codes "/HISTORY/VM/TEMPLATE/MEMORY") (pos 0)
    cpu ← xpath x (read_float f_of_int) doc (codes "/HISTORY/VM/TEMPLATE/CPU") f_zero
    start_time ← xpath x read_int64 doc (codes "/HISTORY/STIME") (negsuc 0)
    stop_time ← xpath x read_int64 doc (codes "/HISTORY/ETIME") (negsuc 0)
    done (record {
      oid = oid.0;
      uid = uid.0;
      vmid = vmid.0;
      memory = memory.0;
      cpu = cpu.0;
      start_time = start_time.0;
      stop_time = stop_time.0;
      static_vm = static_vm.0;
    })

  -- The list of a user; `none` if one of the nodes is no entry, which ends the loop.
  pub make_list : List Node → Outcome (Option (List (AcctObject F)))
  unfolding make_acct
  make_list [] = done (some [])
  make_list (n ∷ ns) = elim (has_children n) [
    | false ↦ done none
    | true ↦ (make_acct n >>= λ a. make_list ns >>= λ l. done (with_first a l))
  ]
    where
      with_first : AcctObject F → Option (List (AcctObject F)) → Option (List (AcctObject F))
      with_first a none = none
      with_first a (some l) = some (a ∷ l)

  make_user_object : ℤ → List Node → Entries → Outcome Entries
  unfolding make_list
  make_user_object uid nodes objects = do
    l ← make_list nodes
    done (elim l [ none ↦ objects | some entries ↦ StdMap.insert ltb_ℤ uid entries objects ])

  pub history_search : ℤ → Text
  history_search uid = codes "/HISTORY_RECORDS/HISTORY[VM/UID=" ++ (dec uid ++ codes "]")

  -- A user without nodes gets no list.
  add_nodes : ℤ → List Node → Entries → Outcome Entries
  unfolding make_user_object
  add_nodes uid [] objects = done objects
  add_nodes uid (n ∷ ns) objects = make_user_object uid (n ∷ ns) objects

  -- The loop over the known users.
  make_objects : Doc → List ℤ → Entries → Outcome Entries
  unfolding add_nodes history_search
  make_objects doc [] objects = done objects
  make_objects doc (uid ∷ uids) objects = do
    more ← add_nodes uid (get_nodes x doc (history_search uid)) objects
    make_objects doc uids more

  -- `value_int(time_start)`, an `int`, is made from an `int64_t`.
  pub load_acct : Transport → XmlRpcClient → ℤ → ℤ × Option Value
  load_acct send client time_start =
      elim (call send client (codes "one.vmpool.accounting")
        (int (negsuc 1) ∷ int (narrow_int time_start) ∷ int (negsuc 0) ∷ [])) [
          | done result ↦ (pos 0, result)
          | _ ↦ (negsuc 0, none)
        ]

  read_entries : List ℤ → List Value → Outcome (Entries × ℤ)
  unfolding make_objects
  read_entries uids values = do
    first ← element 0 values
    success ← as_boolean first
    second ← element 1 values
    if success then parsed second else refused second
    where
      refused : Value → Outcome (Entries × ℤ)
      refused v = do message ← as_string v; done ([], negsuc 0)

      parsed : Value → Outcome (Entries × ℤ)
      parsed v = do
        acctlist ← as_string v
        doc ← or_throw (read_memory acctlist)
        objects ← make_objects doc uids []
        done (objects, pos 0)

  -- From a pool that is flushed first: the new entries and the return code.
  unfoldable pub set_up : Transport → XmlRpcClient → List ℤ → ℤ → Outcome (Entries × ℤ)
  unfolding load_acct read_entries
  set_up send client uids time_start =
      let (rc, result) = load_acct send client time_start in
      if rc ==ℤ pos 0 then (as_array result >>= read_entries uids) else done ([], negsuc 0)
