-- ===== src/Log/Examples.antt =====
-- A message of src/logger/Log.cc at level 3.
use one_fass.Base.{pos, some, true, ◌≡◌, refl}
use one_fass.Text.{codes}
use one_fass.Log.{info, get_debug_level, log_line}

line_test :
    log_line (get_debug_level (pos 3)) true (codes "now") (codes "PM") info (codes "started")
    ≡ some (codes "now [PM][I]: started\n")
unfolding log_line get_debug_level
line_test = refl
