-- ===== src/Xml/Memory/Pools/Examples.antt =====
-- A virtual machine that is answered twice, and users with a node that is no entry.
use one_fass.Base.{◌+◌, ℕ, ℤ, pos, Bool, true, false, Option, none, some, List, [], ◌∷◌, ◌≡◌, refl}
use one_fass.Outcome.{done}
use one_fass.StdMap.{insert}
use one_fass.Xml.Memory.Pools.{Owner, flush, pointer, pointers, add_objects, make_objects}
use one_fass.Xml.Memory.Pools.Counts.{count, spilled}
use one_fass.Xml.Memory.Pools.Spills.{flush-make_objects}

abbrev machines : List (Option ℤ)
machines = some (pos 7) ∷ none ∷ some (pos 9) ∷ some (pos 7) ∷ []

abbrev with_machines : Owner ℕ
with_machines = add_objects machines (record { objects = []; live = []; fresh = 0 })

machines_lost :
    flush pointer with_machines ≡ done (record { objects = []; live = 2 ∷ []; fresh = 3 })
unfolding flush add_objects insert
machines_lost = refl

abbrev users : List (ℤ × List Bool)
users = (pos 7, true ∷ true ∷ []) ∷ (pos 8, []) ∷ (pos 9, true ∷ false ∷ true ∷ []) ∷ []

abbrev with_entries : Owner (List ℕ)
with_entries = make_objects users (record { objects = []; live = []; fresh = 0 })

entries_lost :
    flush pointers with_entries ≡ done (record { objects = []; live = 2 ∷ []; fresh = 3 })
unfolding flush make_objects insert
entries_lost = refl

flush-make_objects_example :
    (left : List ℕ) × (flush pointers with_entries
      ≡ done (record with_entries { objects = []; live = left }))
    × ((n : ℕ) → count n left ≡ 0 + count n (spilled [] 0 users))
flush-make_objects_example = flush-make_objects users [] 0
