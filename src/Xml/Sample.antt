-- ===== src/Xml/Sample.antt =====
-- A small stand-in for libxml2: a document is a list of nodes, each with the values of the paths that
-- are read from it.
use mathlib.Core.Option
use one_fass.Base.{
  ◌^◌, Bool, true, false, Option, none, some, List, [], ◌∷◌, map, ◌||◌, if◌then◌else◌,
}
use one_fass.Text.{Text, codes, eq_text, is_prefix}
use one_fass.Text.Reading.{read_int}
use one_fass.Xml.{LibXml, XPathObject, nodeset}

pub data Node : Type 0 where
  inner : List (Text × Text) → Node
  leaf : Text → Node

abbrev lookup : Text → List (Text × Text) → List (Option Node)
lookup path [] = []
lookup path ((p, v) ∷ m) =
    let rest = lookup path m in if eq_text p path then some (leaf v) ∷ [] else rest

abbrev values_at : Text → List Node → Option (XPathObject Node)
values_at path [] = none
values_at path (inner m ∷ ns) = some (nodeset (some (lookup path m)))
values_at path (leaf v ∷ ns) = none

abbrev evaluate : List Node → Text → Option (XPathObject Node)
evaluate doc path =
    if is_prefix (codes "/VM_POOL") path || is_prefix (codes "/HISTORY_RECORDS") path
    then some (nodeset (some (map some doc)))
    else values_at path doc

abbrev content : Node → Option Text
content (inner m) = none
content (leaf v) = some v

abbrev is_inner : Node → Bool
is_inner (inner m) = true
is_inner (leaf v) = false

-- Every text that is parsed gives the one document.
abbrev pub sample_xml : List Node → LibXml
sample_xml document = record {
  Doc = List Node;
  Node = Node;
  read_memory = λ t. some document;
  eval = evaluate;
  is_element = λ n. true;
  content = content;
  copy = some;
  document = λ n. some (n ∷ []);
  has_children = is_inner;
  dump = λ d. codes "<?xml?><VM><USER_TEMPLATE></USER_TEMPLATE></VM>";
  read_float = λ g t. Option.map g (read_int (2 ^ 31) t);
}

-- A virtual machine: its id, its user, whether it is static, and when it was made and started.
abbrev pub sample_vm : Text → Text → Text → Text → Text → Node
sample_vm oid uid static_vm birth start = inner (
    (codes "/VM/ID", oid)
    ∷ (codes "/VM/UID", uid)
    ∷ (codes "/VM/USER_TEMPLATE/STATIC_VM", static_vm)
    ∷ (codes "/VM/TEMPLATE/MEMORY", codes "512")
    ∷ (codes "/VM/TEMPLATE/CPU", codes "2")
    ∷ (codes "/VM/STIME", birth)
    ∷ (codes "/VM/HISTORY_RECORDS/HISTORY/STIME", start)
    ∷ [])
