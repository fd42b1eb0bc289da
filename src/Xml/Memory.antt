-- ===== src/Xml/Memory.antt =====
-- The documents and contexts that an object of include/ObjectXML.h allocates and frees. They are
-- numbered in the order of allocation, and to free what is not there is an error of memory.
pub mod Lives
pub mod Pools
mod Examples
use one_fass.Base.{
  ℕ, suc, Bool, true, false, Option, none, some, List, [], ◌∷◌, ◌==◌, if◌then◌else◌,
}
use one_fass.Outcome.{Outcome, done, faults, ◌>>=◌}

pub record Heap : Type 0 where
  pub docs : List ℕ
  pub ctxs : List ℕ
  pub fresh : ℕ

-- The members `xml` and `ctx`, null as `none`, with the memory, and whether an exception was thrown.
pub record Object : Type 0 where
  pub xml : Option ℕ
  pub ctx : Option ℕ
  pub heap : Heap
  pub thrown : Bool

unfoldable pub remove : ℕ → List ℕ → Outcome (List ℕ)
remove n [] = faults
remove n (m ∷ ms) =
    let rest = remove n ms in if m == n then done ms else (rest >>= λ r. done (m ∷ r))

free_doc : Option ℕ → Heap → Outcome Heap
unfolding remove
free_doc none h = done h
free_doc (some n) h = remove n h.docs >>= λ docs. done (record h { docs = docs })

free_ctx : Option ℕ → Heap → Outcome Heap
unfolding remove
free_ctx none h = done h
free_ctx (some n) h = remove n h.ctxs >>= λ ctxs. done (record h { ctxs = ctxs })

abbrev new_doc : Heap → Heap
new_doc h = record h { docs = h.fresh ∷ h.docs; fresh = suc h.fresh }

abbrev new_ctx : Heap → Heap
new_ctx h = record h { ctxs = h.fresh ∷ h.ctxs; fresh = suc h.fresh }

-- The constructor, where memory is to be had.
abbrev pub make : Heap → Object
make h = record {
  xml = some h.fresh;
  ctx = some (new_doc h).fresh;
  heap = new_ctx (new_doc h);
  thrown = false;
}

-- `cleanup`, which is also the destructor: the pointers stay as they are.
pub cleanup : Object → Outcome Object
unfolding free_doc free_ctx
cleanup o = do h ← free_doc o.xml o.heap; h' ← free_ctx o.ctx h; done (record o { heap = h' })

-- `xml_parse`: whether the text is a document, and whether a context is to be had. The members are
-- overwritten before the tests.
pub xml_parse : Bool → Bool → Object → Outcome Object
unfolding free_doc
xml_parse false allocated o = done (record o { xml = none; thrown = true })
xml_parse true true o =
    let h = new_doc o.heap in
    done (record o { xml = some o.heap.fresh; ctx = some h.fresh; heap = new_ctx h })
xml_parse true false o = free_doc (some o.heap.fresh) (new_doc o.heap) >>= λ h.
    done (record { xml = some o.heap.fresh; ctx = none; heap = h; thrown = true })

-- `init`: the copy of the node is in the document. Where there is none, both members are freed.
pub init : Bool → Object → Outcome Object
unfolding free_doc free_ctx
init true o = done o
init false o = do
  h ← free_ctx o.ctx o.heap
  h' ← free_doc o.xml h
  done (record o { heap = h'; thrown = true })

-- What `set_up` of a pool does to it for each answer of OpenNebula that is a success.
-- It goes on when `xml_parse` has thrown, as a caller does that catches the exception; none in the
-- repository does.
pub refreshes : List Bool → Object → Outcome Object
unfolding cleanup xml_parse
refreshes [] o = done o
refreshes (parsed ∷ answers) o = do
  clean ← cleanup o
  filled ← xml_parse parsed true clean
  refreshes answers filled

-- A pool from its constructor to its destructor.
pub pool_life : List Bool → Heap → Outcome Heap
unfolding refreshes
pool_life answers h = ((refreshes answers (make h) >>= cleanup) >>= λ gone. done gone.heap)

-- A virtual machine or an entry of the accounting: the destructor of the base runs also when its
-- constructor throws.
pub node_life : Bool → Heap → Outcome Heap
unfolding init cleanup
node_life copied h = ((init copied (make h) >>= cleanup) >>= λ gone. done gone.heap)
