-- ===== src/Xml/Memory/Pools.antt =====
-- The objects that src/xml/VMPool.cc and src/xml/AcctPool.cc make with `new` and delete in `flush`.
-- They are numbered in the order of allocation, and to delete what is not there is an error of memory.
pub mod Counts
pub mod Deletes
pub mod Keys
pub mod Leaks
pub mod Spills
mod Examples
use one_fass.Base.{ℕ, ℤ, suc, Bool, true, false, Option, none, some, List, [], ◌∷◌, ◌++◌, ltb_ℤ}
use one_fass.Outcome.{Outcome, done, ◌>>=◌}
use one_fass.StdMap.{Map, insert}
use one_fass.Xml.Memory.{remove}

-- A pool: its map of pointers, or of lists of pointers, the objects that are allocated, and the next
-- number.
pub record Owner (V : Type 0) : Type 0 where
  pub objects : Map ℤ V
  pub live : List ℕ
  pub fresh : ℕ

-- `delete` of each pointer of a list.
unfoldable pub delete_each : List ℕ → List ℕ → Outcome (List ℕ)
unfolding remove
delete_each [] live = done live
delete_each (n ∷ ns) live = remove n live >>= delete_each ns

module _ {V : Type 0} where
  -- The loop of `flush`, with the pointers of an entry of the map.
  unfoldable pub delete_all : (V → List ℕ) → Map ℤ V → List ℕ → Outcome (List ℕ)
  unfolding delete_each
  delete_all pointers [] live = done live
  delete_all pointers ((key, v) ∷ objects) live =
      delete_each (pointers v) live >>= delete_all pointers objects

  unfoldable pub flush : (V → List ℕ) → Owner V → Outcome (Owner V)
  unfolding delete_all
  flush pointers p = do
    live ← delete_all pointers p.objects p.live
    done (record p { objects = []; live = live })

  -- `new`, where memory is to be had.
  abbrev pub new_object : Owner V → Owner V
  new_object p = record p { live = p.fresh ∷ p.live; fresh = suc p.fresh }

-- A pointer of the map of VMPool.
abbrev pub pointer : ℕ → List ℕ
pointer vm = vm ∷ []

-- A list of the map of AcctPool.
abbrev pub pointers : List ℕ → List ℕ
pointers l = l

-- `VMPool::add_object` for a node that is refused, or with the id that is read from it. `insert` leaves
-- an entry that is there, and the pointer to the new object is gone.
unfoldable pub add_object : Option ℤ → Owner ℕ → Owner ℕ
unfolding insert
add_object none p = p
add_object (some oid) p = record (new_object p) { objects = insert ltb_ℤ oid p.fresh p.objects }

-- The loop of `VMPool::set_up`.
unfoldable pub add_objects : List (Option ℤ) → Owner ℕ → Owner ℕ
unfolding add_object
add_objects [] p = p
add_objects (n ∷ ns) p = add_objects ns (add_object n p)

-- `AcctPool::make_user_object`, with the list so far and, for each node, whether it is an entry. One
-- that is not ends the function, and the list is gone.
unfoldable pub make_user_object : ℤ → List Bool → List ℕ → Owner (List ℕ) → Owner (List ℕ)
unfolding insert
make_user_object uid [] l p = record p { objects = insert ltb_ℤ uid l p.objects }
make_user_object uid (false ∷ nodes) l p = p
make_user_object uid (true ∷ nodes) l p =
    make_user_object uid nodes (l ++ (p.fresh ∷ [])) (new_object p)

-- The loop of `AcctPool::set_up` over the users, each with its nodes.
unfoldable pub make_objects : List (ℤ × List Bool) → Owner (List ℕ) → Owner (List ℕ)
unfolding make_user_object
make_objects [] p = p
make_objects ((uid, []) ∷ users) p = make_objects users p
make_objects ((uid, n ∷ ns) ∷ users) p = make_objects users (make_user_object uid (n ∷ ns) [] p)
