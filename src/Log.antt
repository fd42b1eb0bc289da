-- ===== src/Log.antt =====
-- src/logger/Log.cc, include/Log.h and `get_debug_level` of src/fass/Fass.cc: which messages are
-- written to the log. Opening the file is a parameter.
pub mod Levels
pub mod Shared
mod Examples
use one_fass.Base.{
  ℕ, ℤ, pos, ◌==ℤ◌, not, Bool, true, false, ◌&&◌, ltb_ℤ, leb, Option, none, some, List, [], ◌∷◌,
  ◌++◌, if◌then◌else◌,
}
use one_fass.Text.{Text, codes}

pub data MessageType : Type 0 where
  error : MessageType
  warning : MessageType
  info : MessageType
  debug : MessageType
  ddebug : MessageType
  dddebug : MessageType

-- The values of the enumeration, and the letters that stand for them.
abbrev pub level_of : MessageType → ℕ
level_of error = 0
level_of warning = 1
level_of info = 2
level_of debug = 3
level_of ddebug = 4
level_of dddebug = 5

abbrev pub error_name : MessageType → Text
error_name error = codes "E"
error_name warning = codes "W"
error_name info = codes "I"
error_name debug = codes "D"
error_name ddebug = codes "D"
error_name dddebug = codes "D"

-- `static_cast<Log::MessageType>`, in the range of the enumeration.
abbrev cast : ℤ → MessageType
cast n =
    if n ==ℤ pos 1
    then warning
    else if n ==ℤ pos 2
    then info
    else if n ==ℤ pos 3
    then debug
    else if n ==ℤ pos 4
    then ddebug
    else if n ==ℤ pos 5
    then dddebug
    else error

-- From the value of `fass.log_level`.
unfoldable pub get_debug_level : ℤ → MessageType
get_debug_level log_level =
    if not (log_level ==ℤ pos 0)
    then if not (ltb_ℤ log_level (pos 0)) && not (ltb_ℤ (pos 5) log_level)
      then cast log_level
      else error
    else error

-- The line that `FileLog::log` appends to the file, if any: `opens` says whether the file can be opened,
-- and `time` is the time as it is written.
unfoldable pub log_line : MessageType → Bool → Text → Text → MessageType → Text → Option Text
log_line log_level opens time module_name type message =
    let line =
      time
      ++ (codes " ["
          ++ (module_name
              ++ (codes "][" ++ (error_name type ++ (codes "]: " ++ (message ++ codes "\n")))))) in
    if leb (level_of type) (level_of log_level) && opens then some line else none
