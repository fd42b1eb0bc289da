-- ===== src/Config/Options/Reads.antt =====
-- The options that `Fass::start` and `Fass::get_debug_level` in src/fass/Fass.cc read, and with which
-- types.
use one_fass.Base.{
  false, Bool-cases, if◌then◌else◌, refl, Bool, true, Option, none, some, List, [], ◌∷◌, ◌++◌, ◌≡◌,
  refl, All, Option-cases, inl, inr,
}
use mathlib.Core.Option.{some-injective}
use one_fass.Base.{List, ◌∷◌, ◌++◌, Option-cases, inl, inr, All, true}
use one_fass.Text.{Text, codes}
use one_fass.Config.Options.{
  Any, AllowedType, is_string, is_int, is_long_int, is_bool, get_option_type, options, lookup,
  Parsed, load_configuration, get_option, same_type, or_default,
}

-- The reads, in order: section, name, and the type of the variable that takes the value.
abbrev pub reads : List (Text × Text × AllowedType)
reads =
    (codes "fass", codes "log_level", is_int)
    ∷ (codes "database", codes "type", is_string)
    ∷ (codes "database", codes "endpoint", is_string)
    ∷ (codes "database", codes "port", is_int)
    ∷ (codes "database", codes "name", is_string)
    ∷ (codes "fass", codes "one_endpoint", is_string)
    ∷ (codes "fass", codes "one_port", is_string)
    ∷ (codes "fass", codes "one_secret", is_string)
    ∷ (codes "rpcm", codes "message_size", is_long_int)
    ∷ (codes "rpcm", codes "timeout", is_int)
    ∷ (codes "pm", codes "manager_timer", is_int)
    ∷ (codes "pm", codes "start_time", is_string)
    ∷ (codes "pm", codes "period", is_int)
    ∷ (codes "pm", codes "n_periods", is_int)
    ∷ (codes "pm", codes "plugin_debug", is_int)
    ∷ (codes "terminator", codes "manager_timer", is_int)
    ∷ (codes "terminator", codes "max_wait", is_long_int)
    ∷ (codes "terminator", codes "action", is_string)
    ∷ (codes "rpcm", codes "listen_port", is_string)
    ∷ (codes "rpcm", codes "listen_address", is_string)
    ∷ (codes "rpcm", codes "max_conn", is_int)
    ∷ (codes "rpcm", codes "max_conn_backlog", is_int)
    ∷ (codes "rpcm", codes "keepalive_timeout", is_int)
    ∷ (codes "rpcm", codes "keepalive_max_conn", is_int)
    ∷ (codes "rpcm", codes "rpc_log", is_bool)
    ∷ (codes "rpcm", codes "log_call_format", is_string)
    ∷ []

-- Boost stores a value of the declared type for each declared option in the file.
abbrev pub IsTyped : Parsed → Type 0
IsTyped file =
    (name : Text) (v d : Any)
    → file name ≡ some v
    → lookup name options ≡ some d
    → get_option_type v ≡ get_option_type d

-- The read finds a value.
abbrev pub IsFound : (Text → Option Any) → Text × Text × AllowedType → Type 0
IsFound vm (section, name, type) = (v : Any) × (get_option type vm section name ≡ some v)

-- The declared default has the type.
abbrev IsDeclared : Text × Text × AllowedType → Type 0
IsDeclared (section, name, type) =
    (d : Any) × (lookup (section ++ (codes "." ++ name)) options ≡ some d)
    × (same_type type (get_option_type d) ≡ true)

IsDeclared-IsFound :
    (file : Parsed) (r : Text × Text × AllowedType)
    → IsTyped file
    → IsDeclared r
    → IsFound (λ name. or_default (file name) (lookup name options)) r
unfolding get_option
IsDeclared-IsFound file (section, name, type) t (d, at, same) =
    let full = section ++ (codes "." ++ name) in
    elim (Option-cases (file full)) [
      | inl e ↦ (d, rw (e, at, same))
      | inr (v, e) ↦ (v, rw (e, t full v d e at, same))
    ]

reads-IsFound :
    (file : Parsed) (rs : List (Text × Text × AllowedType))
    → IsTyped file
    → All IsDeclared rs
    → All (IsFound (λ name. or_default (file name) (lookup name options))) rs
reads-IsFound file [] t h = tt
reads-IsFound file (r ∷ rs) t (d, h) = (IsDeclared-IsFound file r t d, reads-IsFound file rs t h)

abbrev declared_as : AllowedType → Option Any → Bool
declared_as type none = false
declared_as type (some d) = same_type type (get_option_type d)

abbrev all_declared : List (Text × Text × AllowedType) → Bool
all_declared [] = true
all_declared ((section, name, type) ∷ rs) =
    let rest = all_declared rs in
    if declared_as type (lookup (section ++ (codes "." ++ name)) options) then rest else false

declared_as-IsDeclared :
    (type : AllowedType) (o : Option Any)
    → declared_as type o ≡ true
    → (d : Any) × (o ≡ some d) × (same_type type (get_option_type d) ≡ true)
declared_as-IsDeclared type none e = cc
declared_as-IsDeclared type (some d) e = (d, refl, e)

all_declared-IsDeclared :
    (rs : List (Text × Text × AllowedType)) → all_declared rs ≡ true → All IsDeclared rs
all_declared-IsDeclared [] e = tt
all_declared-IsDeclared ((section, name, type) ∷ rs) e =
    let entry = lookup (section ++ (codes "." ++ name)) options in
    elim (Bool-cases (declared_as type entry)) [
      | inl h ↦ (declared_as-IsDeclared type entry h, all_declared-IsDeclared rs (rw h at e))
      | inr h ↦ let wrong = rw h at e in cc
    ]

-- After a file has been loaded, each of the 26 reads finds a value of the type that is asked for,
-- whether the file gives one or not, so no variable stays unset. That a value in the file is
-- stored with the declared type is what boost documents.
pub load_configuration-IsFound :
    (file : Parsed) {vm : Text → Option Any}
    → IsTyped file
    → load_configuration (some file) ≡ some vm
    → All (IsFound vm) reads
unfolding load_configuration
load_configuration-IsFound file t e =
    rw (← some-injective _ _ e) (reads-IsFound file reads t (all_declared-IsDeclared reads refl))
