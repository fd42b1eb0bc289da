-- ===== src/PriorityManager/Round/Order/Examples.antt =====
-- A round over two machines, in either order.
use mathlib.Core.Quot
use mathlib.Core.Quot.{Quot}
use one_fass.Base.{
  false, ℤ, pos, negsuc, true, some, List, [], ◌∷◌, ◌≡◌, refl, sym, ap, ◌∙◌, arith, if◌then◌else◌,
}
use one_fass.Text.{Text, codes, eq_text}
use one_fass.Outcome.{done, done-injective}
use one_fass.Floating.{whole}
use one_fass.Boost.Sample.{sample_boost}
use one_fass.Xml.{LibXml, get_nodes}
use one_fass.Xml.Sample.{Node, sample_xml}
use one_fass.Xml.VmObject.{make_vm}
use one_fass.Client.{Transport, array, boolean, string, of_list, succeeded, call}
use one_fass.Terminator.{Terminator}
use one_fass.Plugin.Sample.{light}
use one_fass.VmPool.{pending_search}
use one_fass.VmPool.Sample.{node_9, node_7, vm_9, vm_7, client, silent}
use one_fass.VmPool.Order.{returned, Apart, swap, Answer, Lists}
use one_fass.PriorityManager.Cycle.{Settings, PriorityManager, cycle}
use one_fass.PriorityManager.Round.Order.{retrieving, cycle-Answer}

abbrev falling : List Node
falling = node_9 ∷ node_7 ∷ []

abbrev rising : List Node
rising = node_7 ∷ node_9 ∷ []

abbrev xml : LibXml
xml = record (sample_xml falling) {
  read_memory = λ t. some (if eq_text t (codes "rising") then rising else falling);
}

abbrev listing : Text → Transport
listing text method params = succeeded (array (of_list (boolean true ∷ string text ∷ [])))

abbrev settings : Settings whole xml sample_boost
settings = record {
  start_time = codes "19/04/1981";
  manager_timer = pos 60;
  period = pos 2;
  n_periods = 3;
  plugin_debug = pos 0;
  client = client;
  junk = record { cpu = pos 7; mem = pos 8 };
  blank = light;
}

abbrev free : Terminator whole xml
free = record {
  max_wait = pos 50;
  action = codes "kill";
  client = client;
  objects = [];
  locked = false;
}

abbrev before : PriorityManager whole xml sample_boost
before = record { user_list = []; vmpool = []; priorities = []; queue = [] }

ℤ_is_set : IsSet ℤ
ℤ_is_set = hlevel

docs_set : IsSet (List Node)
docs_set = hlevel

Lists-falling : Lists whole xml (listing (codes "falling")) client falling
unfolding call
Lists-falling = record { text = codes "falling"; more = []; answers = refl; parses = refl }

Lists-rising : Lists whole xml (listing (codes "rising")) client rising
unfolding call
Lists-rising = record { text = codes "rising"; more = []; answers = refl; parses = refl }

made_9 : make_vm whole xml node_9 ≡ done vm_9
unfolding make_vm one_fass.Xml.xpath one_fass.Text.Reading.read_int
made_9 = refl

made_7 : make_vm whole xml node_7 ≡ done vm_7
unfolding make_vm one_fass.Xml.xpath one_fass.Text.Reading.read_int
made_7 = refl

apart : Apart whole xml node_9 node_7
apart vm other e d same =
    let nine = ap (λ v. v.oid) (done-injective _ _ (sym made_9 ∙ e)) in
    let seven = ap (λ v. v.oid) (done-injective _ _ (sym made_7 ∙ d)) in
    ground (arith, nine, seven, same)

same_answer :
    ◌≡◌ {A = Answer whole xml}
      (Quot.mk (get_nodes xml falling (pending_search (negsuc 0))))
      (Quot.mk (get_nodes xml rising (pending_search (negsuc 0))))
unfolding get_nodes
same_answer = Quot.sound (swap node_9 node_7 [] apart)

cycle-Answer_example :
    returned (
      cycle whole xml sample_boost
        (retrieving (listing (codes "falling")) (λ i. silent))
        (λ i. pos 1000)
        (pos 1000)
        settings
        free
        before)
    ≡ returned (
        cycle whole xml sample_boost
          (retrieving (listing (codes "rising")) (λ i. silent))
          (λ i. pos 1000)
          (pos 1000)
          settings
          free
          before)
cycle-Answer_example =
    cycle-Answer whole xml sample_boost ℤ_is_set docs_set (λ i. silent) (listing (codes "falling"))
      (listing (codes "rising")) (λ i. pos 1000) (pos 1000) settings free before falling rising
      Lists-falling Lists-rising same_answer
