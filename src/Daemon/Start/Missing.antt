-- ===== src/Daemon/Start/Missing.antt =====
-- The start with a shares.conf in which a property is missing.
use one_fass.Base.{pos, some, [], ◌≡◌, refl, Among}
use one_fass.Text.{Text}
use one_fass.Outcome.{faults}
use one_fass.Floating.{Floating}
use one_fass.Boost.{Boost}
use one_fass.Config.{PropertyTree, props}
use one_fass.Config.Missing.{Lacks, load_shares-Lacks}
use one_fass.Config.Options.{load_configuration}
use one_fass.Daemon.Start.{World, Variables}
use one_fass.Daemon.Start.Stages.{start, run_stages, next_stage, configure, read_shares}

module _ (f : Floating) (b : Boost f.F) (w : World) where
  -- If a section of shares.conf lacks one of the four properties, the start reads through the pointer
  -- to the log before it is set, where an exception is meant; no thread runs. The name of the host
  -- is known, and fassd.conf can be parsed.
  pub start-Lacks :
      (pt : PropertyTree) (user property : Text) {vm : Variables}
      → w.hostname_rc ≡ pos 0
      → load_configuration w.fassd_conf ≡ some vm
      → w.shares_conf ≡ some pt
      → Among user pt.sections
      → Among property props
      → Lacks pt user property
      → ((start f b w).1 ≡ faults) × ((start f b w).0.threads ≡ [])
  unfolding start run_stages next_stage configure read_shares
  start-Lacks pt user property named loaded file among known lacks =
      let missing = load_shares-Lacks pt user property [] lacks known among in
      (rw (named, loaded, file, missing) refl, rw (named, loaded, file, missing) refl)
