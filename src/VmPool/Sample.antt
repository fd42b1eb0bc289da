-- ===== src/VmPool/Sample.antt =====
-- An answer of OpenNebula with two virtual machines, and the pool that is read from it.
use one_fass.Client.{call, unfinished}
use one_fass.Outcome.{done}
use one_fass.VmPool.Objects.{IsValid}
use one_fass.VmPool.{set_priority, get, Pool, make_queue, pending_search, set_up, running_search}
use one_fass.Base.{◌++◌, ◌≡◌, refl}
use one_fass.Base.{List, ℤ, pos, negsuc, [], ◌∷◌, true}
use one_fass.Text.{find?, erase, insert, find, Text, codes}
use one_fass.Floating.{whole}
use one_fass.Xml.{LibXml}
use one_fass.Xml.Sample.{Node, sample_xml, sample_vm}
use one_fass.Xml.VmObject.{VmObject, dump_node}
use one_fass.Client.{array, boolean, string, of_list, Transport, succeeded, XmlRpcClient}

-- Two machines, of which the second is read twice.
abbrev pub node_9 : Node
node_9 = sample_vm (codes "9") (codes "5") (codes "0") (codes "100") (codes "200")

abbrev pub node_7 : Node
node_7 = sample_vm (codes "7") (codes "6") (codes "1") (codes "90") (codes "0")

abbrev pub node_7_again : Node
node_7_again = sample_vm (codes "7") (codes "8") (codes "1") (codes "91") (codes "0")

abbrev pub xml : LibXml
xml = sample_xml (node_9 ∷ node_7 ∷ node_7_again ∷ [])

abbrev pub send : Transport
send method params = succeeded (array (of_list (boolean true ∷ string (codes "<VM_POOL/>") ∷ [])))

abbrev pub client : XmlRpcClient
client = record {
  auth = codes "oneadmin:secret";
  endpoint = codes "http://localhost:2633/RPC2";
  message_size = 1073741824;
  timeout = 90000;
}

abbrev pub vm_7 : VmObject ℤ (List Node)
vm_7 = record {
  oid = pos 7;
  uid = pos 6;
  gid = negsuc 0;
  start = pos 0;
  birth = pos 90;
  memory = pos 512;
  cpu = pos 2;
  static_vm = pos 1;
  xml = node_7 ∷ [];
}

abbrev pub vm_9 : VmObject ℤ (List Node)
vm_9 = record {
  oid = pos 9;
  uid = pos 5;
  gid = negsuc 0;
  start = pos 200;
  birth = pos 100;
  memory = pos 512;
  cpu = pos 2;
  static_vm = pos 0;
  xml = node_9 ∷ [];
}

abbrev pub pool : Pool whole xml
pool = (pos 7, vm_7) ∷ (pos 9, vm_9) ∷ []

pub send_answers :
    (uid : ℤ) → set_up whole xml send client (running_search uid) ≡ done (pool, pos 0)
unfolding set_up call one_fass.Xml.get_nodes one_fass.Xml.VmObject.make_vm one_fass.Xml.xpath
    one_fass.StdMap.insert one_fass.Text.Reading.read_int
send_answers uid = refl

pub send_answers_pending :
    set_up whole xml send client (pending_search (negsuc 0)) ≡ done (pool, pos 0)
unfolding set_up call one_fass.Xml.get_nodes one_fass.Xml.VmObject.make_vm one_fass.Xml.xpath
    one_fass.StdMap.insert one_fass.Text.Reading.read_int
send_answers_pending = refl

pub pool-IsValid : IsValid whole xml pool
pool-IsValid = record { keyed = (refl, (refl, tt)); sorted = (refl, tt) }

abbrev pub silent : Transport
silent method params = unfinished

pub silent_fails : (expr : Text) → set_up whole xml silent client expr ≡ done ([], negsuc 0)
unfolding set_up call
silent_fails expr = refl

-- The queue of the two machines, the younger first, each with its id for a priority.
abbrev pub queue_9_7 : Text
queue_9_7 =
    codes "<VM_POOL><VM><USER_TEMPLATE><USER_PRIORITY>9</USER_PRIORITY></USER_TEMPLATE></VM>"
    ++ codes "<VM><USER_TEMPLATE><USER_PRIORITY>7</USER_PRIORITY></USER_TEMPLATE></VM></VM_POOL>"

pub queue_9_7_made :
    make_queue whole xml pool ((pos 9, pos 9) ∷ (pos 7, pos 7) ∷ []) ≡ done queue_9_7
unfolding make_queue get insert erase find? dump_node set_priority one_fass.StdMap.find
    one_fass.Text.Decimal.dec
queue_9_7_made = refl
