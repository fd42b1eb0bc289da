-- ===== src/Daemon/Start/Examples.antt =====
-- A start with the default options and a shares.conf of two accounts.
use one_fass.Base.{inl, inr, some, none, [], ◌∷◌, ◌≡◌, refl}
use one_fass.Outcome.{faults}
use one_fass.Floating.{whole}
use one_fass.Boost.Sample.{sample_boost}
use one_fass.Config.{load_shares}
use one_fass.Config.{PropertyTree}
use one_fass.Daemon.Start.Missing.{start-Lacks}
use one_fass.Daemon.Start.Sample.{world}
use one_fass.Text.{codes}
use one_fass.Daemon.Start.{World}
use one_fass.Daemon.Start.Stages.{start}
use one_fass.Daemon.Start.Order.{Ended, start-Ended}

start-Ended_example : Ended whole sample_boost world (start whole sample_boost world)
start-Ended_example = start-Ended whole sample_boost world

-- A section without properties.
abbrev bare_tree : PropertyTree
bare_tree = record { sections = codes "ann" ∷ []; get = λ path. none }

abbrev bare_world : World
bare_world = record world { shares_conf = some bare_tree }

start-Lacks_example :
    ((start whole sample_boost bare_world).1 ≡ faults)
    × ((start whole sample_boost bare_world).0.threads ≡ [])
unfolding one_fass.Config.Options.load_configuration
start-Lacks_example =
    start-Lacks whole sample_boost bare_world bare_tree (codes "ann") (codes "ttl") refl refl refl
      (inl refl) (inr (inr (inr (inl refl)))) refl
