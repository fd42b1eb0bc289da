-- ===== src/AcctPool/SetUp/Examples.antt =====
-- Accounting entries of src/xml/AcctPool.cc, read from a concrete answer.
use one_fass.Base.{ℤ, pos, true, [], ◌∷◌, ◌≡◌, refl}
use one_fass.Text.{Text, codes}
use one_fass.Outcome.{done}
use one_fass.Floating.{whole}
use one_fass.Xml.{LibXml}
use one_fass.Xml.Sample.{Node, inner, sample_xml}
use one_fass.Client.{array, boolean, string, of_list, Transport, succeeded, XmlRpcClient, call}
use one_fass.AcctPool.{AcctObject}
use one_fass.AcctPool.SetUp.{Entries, load_acct, set_up}
use one_fass.AcctPool.SetUp.Known.{IsKnown, set_up-IsKnown}

abbrev history : Node
history = inner (
    (codes "/HISTORY/OID", codes "11")
    ∷ (codes "/HISTORY/VM/UID", codes "5")
    ∷ (codes "/HISTORY/VM/ID", codes "11")
    ∷ (codes "/HISTORY/VM/TEMPLATE/MEMORY", codes "512")
    ∷ (codes "/HISTORY/VM/TEMPLATE/CPU", codes "2")
    ∷ (codes "/HISTORY/STIME", codes "100")
    ∷ (codes "/HISTORY/ETIME", codes "0")
    ∷ [])

abbrev xml : LibXml
xml = sample_xml (history ∷ [])

abbrev send : Transport
send method params =
    succeeded (array (of_list (boolean true ∷ string (codes "<HISTORY_RECORDS/>") ∷ [])))

abbrev client : XmlRpcClient
client = record {
  auth = codes "a:b";
  endpoint = codes "http://one";
  message_size = 1000;
  timeout = 90000;
}

abbrev entry : AcctObject ℤ
entry = record {
  oid = pos 11;
  uid = pos 5;
  vmid = pos 11;
  memory = pos 512;
  cpu = pos 2;
  start_time = pos 100;
  stop_time = pos 0;
  static_vm = pos 1;
}

abbrev entries : Entries whole xml
entries = (pos 5, entry ∷ []) ∷ []

set_up_run : set_up whole xml send client (pos 5 ∷ []) (pos 0) ≡ done (entries, pos 0)
unfolding set_up call one_fass.Xml.get_nodes one_fass.Xml.xpath one_fass.StdMap.insert
    one_fass.Text.Reading.read_int
set_up_run = refl

set_up-IsKnown_example :
    IsKnown whole xml (pos 5 ∷ []) (load_acct whole xml send client (pos 0)) (entries, pos 0)
set_up-IsKnown_example = set_up-IsKnown whole xml (pos 5 ∷ []) send client (pos 0) set_up_run
