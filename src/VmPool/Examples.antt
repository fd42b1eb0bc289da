-- ===== src/VmPool/Examples.antt =====
-- Runs of src/xml/VMPool.cc on a concrete answer of OpenNebula.
use one_fass.Base.{pos, negsuc, [], ◌++◌, ◌≡◌, refl, arith}
use one_fass.Text.{Text, codes}
use one_fass.Outcome.{done}
use one_fass.Floating.{whole}
use one_fass.Xml.{LibXml}
use one_fass.Xml.VmObject.{VmObject}
use one_fass.Client.{
  Value, array, boolean, string, of_list, Transport, Rpc, succeeded, unfinished, XmlRpcClient,
}
use one_fass.VmPool.{set_up, pending_search, prio_node, set_priority}
use one_fass.VmPool.Objects.{IsAnswer, set_up-IsAnswer}
use one_fass.VmPool.Queue.{old_node, set_priority_replaces}
use one_fass.VmPool.Sample.{xml, send, client, pool}

set_up_run : set_up whole xml send client (pending_search (negsuc 0)) ≡ done (pool, pos 0)
unfolding set_up one_fass.Client.call one_fass.Xml.get_nodes one_fass.Xml.VmObject.make_vm
    one_fass.Xml.xpath one_fass.StdMap.insert one_fass.Text.Reading.read_int
set_up_run = refl

set_up-IsAnswer_example : IsAnswer whole xml (pool, pos 0)
set_up-IsAnswer_example =
    set_up-IsAnswer whole xml send client (pending_search (negsuc 0)) set_up_run

-- A call that is not answered in time.
set_up_refused :
    set_up whole xml (λ m p. unfinished) client (pending_search (negsuc 0)) ≡ done ([], negsuc 0)
unfolding set_up one_fass.Client.call
set_up_refused = refl

set_priority_replaces_example :
    set_priority whole xml
      (pos 21)
      (codes "<VM><USER_TEMPLATE>" ++ (old_node (codes "3") ++ codes "</USER_TEMPLATE></VM>"))
    ≡ done (
        codes "<VM><USER_TEMPLATE>"
        ++ (prio_node whole xml (pos 21) ++ codes "</USER_TEMPLATE></VM>"))
set_priority_replaces_example =
    set_priority_replaces whole xml (pos 21) (codes "<VM><USER_TEMPLATE>") (codes "3")
      (codes "</USER_TEMPLATE></VM>") (omega arith) (ground arith) (ground arith)
