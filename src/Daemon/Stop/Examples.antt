-- ===== src/Daemon/Stop/Examples.antt =====
-- The end of the start in Daemon/Start/Sample, where the second join returns ESRCH.
use one_fass.Base.{pos, true, ◌≡◌}
use one_fass.Outcome.{done}
use one_fass.Floating.{whole}
use one_fass.Boost.Sample.{sample_boost}
use one_fass.Daemon.Start.Sample.{world, world_starts}
use one_fass.Daemon.Stop.{Ending, life}
use one_fass.Daemon.Stop.Life.{ended, life-ended}

abbrev stopped : Ending
stopped = record {
  tm_unlocked = true;
  server_made = true;
  server_ends = true;
  pm_ends = true;
  tm_ends = true;
  rejoin = done (pos 3);
}

life-ended_example : life whole sample_boost world stopped ≡ ended whole sample_boost world stopped
life-ended_example = life-ended whole sample_boost world stopped world_starts.1
