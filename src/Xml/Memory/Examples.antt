-- ===== src/Xml/Memory/Examples.antt =====
-- A pool that is read twice, and one whose second answer is no document.
use one_fass.Base.{arith, ℕ, true, false, [], ◌∷◌, arith, All, Among, ◌≡◌, ◌⊎◌, refl}
use one_fass.Outcome.{done, faults}
use one_fass.Xml.Memory.{Heap, pool_life, node_life}
use one_fass.Xml.Memory.Lives.{pool_life_lem, node_life_lem}

abbrev busy : Heap
busy = record { docs = 0 ∷ []; ctxs = 1 ∷ []; fresh = 2 }

pool_life_run : pool_life (true ∷ true ∷ []) busy ≡ done (record busy { fresh = 8 })
unfolding pool_life
pool_life_run = refl

pool_life_lem_example :
    (All (λ parsed. parsed ≡ true) (true ∷ false ∷ [])
      × ((m : ℕ) × (pool_life (true ∷ false ∷ []) busy ≡ done (record busy { fresh = m }))))
    ⊎ (Among false (true ∷ false ∷ []) × (pool_life (true ∷ false ∷ []) busy ≡ faults))
pool_life_lem_example = pool_life_lem (true ∷ false ∷ []) busy (omega arith, tt)

node_life_lem_example : node_life false busy ≡ faults
node_life_lem_example = node_life_lem false busy (omega arith, tt) (omega arith, tt)
