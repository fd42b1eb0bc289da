-- ===== src/Config/Options.antt =====
-- src/config/FassConfigurator.cc, src/config/Configurator.cc and include/Configurator.h: the options of
-- fassd.conf, with their defaults, and how they are read. Boost parses the file, which is a parameter.
pub mod Reads
pub mod Listing
mod Examples
use one_fass.Base.{
  ℕ, ℤ, pos, Bool, true, false, Option, none, some, List, [], ◌∷◌, ◌++◌, if◌then◌else◌,
}
use one_fass.Text.{Text, codes, eq_text}
use one_fass.Text.Decimal.{dec}

-- A `boost::any` of one of the types that occur; `other` is any other type, or none.
pub data Any : Type 0 where
  string : Text → Any
  int : ℤ → Any
  long_int : ℤ → Any
  double : Text → Any
  bool : Bool → Any
  other : Any

pub data AllowedType : Type 0 where
  is_string : AllowedType
  is_int : AllowedType
  is_long_int : AllowedType
  is_double : AllowedType
  is_bool : AllowedType
  is_unkn : AllowedType

abbrev pub get_option_type : Any → AllowedType
get_option_type (string s) = is_string
get_option_type (int n) = is_int
get_option_type (long_int n) = is_long_int
get_option_type (double d) = is_double
get_option_type (bool b) = is_bool
get_option_type other = is_unkn

-- The declared options with their defaults.
abbrev pub options : List (Text × Any)
options =
    (codes "fass.one_port", string (codes "2633"))
    ∷ (codes "fass.one_endpoint", string (codes "http://localhost"))
    ∷ (codes "fass.one_secret", string (codes "oneadmin:opennebula"))
    ∷ (codes "fass.log_level", int (pos 3))
    ∷ (codes "rpcm.listen_port", string (codes "2634"))
    ∷ (codes "rpcm.listen_address", string (codes "127.0.0.1"))
    ∷ (codes "rpcm.timeout", int (pos 15))
    ∷ (codes "rpcm.message_size", long_int (pos 1073741824))
    ∷ (codes "rpcm.max_conn", int (pos 15))
    ∷ (codes "rpcm.max_conn_backlog", int (pos 15))
    ∷ (codes "rpcm.keepalive_timeout", int (pos 15))
    ∷ (codes "rpcm.keepalive_max_conn", int (pos 30))
    ∷ (codes "rpcm.rpc_log", bool true)
    ∷ (codes "rpcm.log_call_format", string (codes "Req:%i UID:%u %m invoked %l"))
    ∷ (codes "database.type", string (codes "influxdb"))
    ∷ (codes "database.endpoint", string (codes "localhost"))
    ∷ (codes "database.port", int (pos 8086))
    ∷ (codes "database.name", string (codes "fassdb"))
    ∷ (codes "pm.manager_timer", int (pos 60))
    ∷ (codes "pm.start_time", string (codes "19/04/1981"))
    ∷ (codes "pm.max_vm", int (pos 5000))
    ∷ (codes "pm.period", int (pos 180))
    ∷ (codes "pm.n_periods", int (pos 3))
    ∷ (codes "pm.plugin_debug", int (pos 0))
    ∷ (codes "terminator.manager_timer", int (pos 60))
    ∷ (codes "terminator.max_wait", long_int (pos 3600))
    ∷ (codes "terminator.action", string (codes "kill"))
    ∷ []

abbrev pub lookup : Text → List (Text × Any) → Option Any
lookup name [] = none
lookup name ((key, v) ∷ m) = let rest = lookup name m in if eq_text key name then some v else rest

-- What `parse_config_file` makes of the file: the values in it, by name, and `none` for a name that is
-- not there.
abbrev pub Parsed : Type 0
Parsed = Text → Option Any

abbrev pub or_default : Option Any → Option Any → Option Any
or_default none def = def
or_default (some v) def = some v

-- The variables after `load_configuration`: `none` where parsing throws.
unfoldable pub load_configuration : Option Parsed → Option (Text → Option Any)
load_configuration none = none
load_configuration (some file) = some (λ name. or_default (file name) (lookup name options))

abbrev pub same_type : AllowedType → AllowedType → Bool
same_type is_string is_string = true
same_type is_int is_int = true
same_type is_long_int is_long_int = true
same_type is_double is_double = true
same_type is_bool is_bool = true
same_type _ _ = false

abbrev pub any_cast : AllowedType → Option Any → Option Any
any_cast type none = none
any_cast type (some v) = if same_type type (get_option_type v) then some v else none

-- `get_option<T>`: the value of `section.name`, if it has the type; else false, and the variable of the
-- caller keeps what it holds.
unfoldable pub get_option : AllowedType → (Text → Option Any) → Text → Text → Option Any
get_option type vm section name = any_cast type (vm (section ++ (codes "." ++ name)))

-- The value as `print_loaded_options` shows it.
unfoldable pub print_value : Any → Text
print_value (string s) = s
print_value (long_int n) = dec n
print_value (int n) = dec n
print_value (double d) = d
print_value (bool true) = codes "1"
print_value (bool false) = codes "0"
print_value other = codes "UnknownType"
