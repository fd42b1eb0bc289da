-- ===== src/Xml/VmObject.antt =====
-- src/xml/VMObject.cc and include/VMObject.h: a virtual machine, read from its node.
use one_fass.Base.{◌+◌, ℤ, pos, negsuc, ◌==ℤ◌, ◌+ℤ◌, ◌*ℤ◌, ◌||◌, if◌then◌else◌}
use one_fass.Text.{Text, codes, find, erase, npos, size_mod}
use one_fass.Outcome.{Outcome, done, ◌>>=◌, or_throw}
use one_fass.Floating.{Floating}
use one_fass.Xml.{LibXml, xpath, read_int32, read_int64}
use Prim.Native.Nat.{◌%◌}

pub record VmObject (F Doc : Type 0) : Type 0 where
  pub oid : ℤ
  pub uid : ℤ
  pub gid : ℤ
  pub start : ℤ
  pub birth : ℤ
  pub memory : ℤ
  pub cpu : F
  pub static_vm : ℤ
  pub xml : Doc

module _ (f : Floating) (x : LibXml) where
  open f use {F, f_of_int, f_mul, f_is_zero, f_to_int, f_add, f_zero}
  open x use {Doc, Node, document, dump, read_float}

  -- The constructor: `init` copies the node, `init_attributes` reads it.
  unfoldable pub make_vm : Node → Outcome (VmObject F Doc)
  make_vm node = do
    doc ← or_throw (document node)
    oid ← xpath x read_int32 doc (codes "/VM/ID") (negsuc 0)
    uid ← xpath x read_int32 doc (codes "/VM/UID") (negsuc 0)
    gid ← xpath x read_int32 doc (codes "/VM/GID") (negsuc 0)
    static_vm ← xpath x read_int32 doc (codes "/VM/USER_TEMPLATE/STATIC_VM") (pos 1)
    memory ← xpath x read_int32 doc (codes "/VM/TEMPLATE/MEMORY") (pos 0)
    cpu ← xpath x (read_float f_of_int) doc (codes "/VM/TEMPLATE/CPU") f_zero
    birth ← xpath x read_int64 doc (codes "/VM/STIME") (negsuc 0)
    start ← xpath x read_int64 doc (codes "/VM/HISTORY_RECORDS/HISTORY/STIME") (negsuc 0)
    done (record {
      oid = oid.0;
      uid = uid.0;
      gid = gid.0;
      start = start.0;
      birth = birth.0;
      memory = memory.0;
      cpu = cpu.0;
      static_vm = static_vm.0;
      xml = doc;
    })

  unfoldable pub add_requirements : F → ℤ → VmObject F Doc → VmObject F Doc
  add_requirements c m vm = record vm { cpu = f_add vm.cpu c; memory = vm.memory +ℤ m }

  unfoldable pub reset_requirements : VmObject F Doc → VmObject F Doc × F × ℤ
  reset_requirements vm = (record vm { cpu = f_of_int (pos 0); memory = pos 0 }, vm.cpu, vm.memory)

  -- `get_requirements(int&, int&)`: in percent and in kilobytes.
  unfoldable pub get_requirements : VmObject F Doc → ℤ × ℤ
  get_requirements vm =
      if vm.memory ==ℤ pos 0 || f_is_zero vm.cpu
      then (pos 0, pos 0)
      else (f_to_int (f_mul vm.cpu (f_of_int (pos 100))), vm.memory *ℤ pos 1024)

  -- The text of the node, from the first `<VM>` to the first `</VM>` behind it.
  unfoldable pub dump_node : VmObject F Doc → Outcome Text
  dump_node vm = do
    let xml_string = dump vm.xml
    cut ← or_throw (erase 0 (find (codes "<VM>") xml_string) xml_string)
    or_throw (erase ((find (codes "</VM>") cut + 5) % size_mod) npos cut)
