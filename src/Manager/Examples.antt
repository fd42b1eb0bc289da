-- ===== src/Manager/Examples.antt =====
-- A loop of include/Manager.h that is stopped while it waits.
use one_fass.Base.{◌≤◌, true, false, refl}
use one_fass.Manager.{Loop, waiting, top, wake, go, round, Steps, here, next}
use one_fass.Manager.Stopping.{Steps-rounds}

abbrev stopped : Loop
stopped = record { phase = waiting; stop_manager = true; rounds = 4 }

abbrev later : Loop
later = record { phase = top; stop_manager = true; rounds = 5 }

-- The wait ends by the signal, and one more round is made.
one_more : Steps stopped later
one_more = next (next (next here (wake stopped false refl)) (go _ true refl refl)) (round _ refl)

Steps-rounds_example : 5 ≤ 5
Steps-rounds_example = Steps-rounds refl one_more
