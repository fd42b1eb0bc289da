-- ===== src/Log/Levels.antt =====
-- Which messages a configured level lets through.
use one_fass.Base.{ℤ, pos, ◌≤ℤ◌, none, true, ◌≡◌, ◌≢◌, ◌↔◌, ◌⊎◌, arith}
use one_fass.Text.{Text}
use one_fass.Log.{MessageType, level_of, get_debug_level, log_line}

-- A message is written to a file that can be opened exactly if it is an error, or the configured level
-- is one of 1 to 5 and the message's is not above it: any other value of `fass.log_level` leaves the
-- errors only.
pub log_line_iff :
    (configured : ℤ) (time module_name message : Text) (type : MessageType)
    → (log_line (get_debug_level configured) true time module_name type message ≢ none) ↔ (
        (level_of type ≡ 0)
        ⊎ ((pos 1 ≤ℤ configured) × (configured ≤ℤ pos 5) × (pos (level_of type) ≤ℤ configured)))
unfolding log_line get_debug_level
log_line_iff configured time module_name message type = (λ h. ground arith, λ h e. ground arith)
