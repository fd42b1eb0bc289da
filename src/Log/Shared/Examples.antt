-- ===== src/Log/Shared/Examples.antt =====
-- Thread 1 has written the head of its line, and thread 2 waits.
use one_fass.Base.{drop, some, true, none, [], ◌∷◌, ◌++◌, ◌≡◌, refl}
use one_fass.Text.{Text, codes}
use one_fass.Log.{info, dddebug}
use one_fass.Log.Shared.{
  LogCall, pieces, entered, writing, FileLogTs, move, opened, log_lock, log_open, log_write,
  LogSteps, log_start, log_next,
}
use one_fass.Log.Shared.Lines.{log_text, LogSteps-lines}

abbrev started_call : LogCall
started_call = record {
  module_name = codes "PM";
  type = info;
  message = codes "started";
  opens = true;
  time = codes "now";
}

abbrev half_written : FileLogTs
half_written =
    let at_lock = move 1 (entered started_call) opened.at in
    let at_open = move 1 (writing (pieces started_call)) at_lock in
    record {
      log_mutex = some 1;
      at = move 1 (writing (drop 1 (pieces started_call))) at_open;
      file = codes "now";
      calls = started_call ∷ [];
    }

half_written_reached : LogSteps dddebug half_written
half_written_reached =
    log_next
      (log_next (log_next log_start (log_lock 1 started_call refl refl))
        (log_open 1 started_call refl refl refl))
      (log_write 1 (codes "now") (drop 1 (pieces started_call)) refl)

LogSteps-lines_example :
    (missing : Text) × (half_written.file ++ missing ≡ log_text dddebug half_written.calls)
    × (half_written.log_mutex ≡ none → missing ≡ [])
LogSteps-lines_example = LogSteps-lines dddebug half_written_reached
