-- ===== src/Config.antt =====
-- src/config/SharesConfigurator.cc: the entries of shares.conf. Boost reads the file into a property
-- tree, which is a parameter.
pub mod Shares
pub mod Missing
pub mod Options
mod Examples
use one_fass.Base.{
  Bool, true, false, Option, none, some, List, [], ◌∷◌, ◌++◌, length, ◌-◌, Option-cases,
}
use one_fass.Text.{Text, codes, erase, npos}
use one_fass.Outcome.{Outcome, done, throws, faults, ◌>>=◌, or_throw}

-- The tree that `read_ini` makes: its sections in order, and `get<string>` at a path, where `none` is
-- the exception.
pub record PropertyTree : Type 0 where
  pub sections : List Text
  pub get : Text → Option Text

abbrev pub props : List Text
props = codes "uid" ∷ codes "gid" ∷ codes "share" ∷ codes "ttl" ∷ []

-- The loop over the properties: each value and a colon behind `value`; `none` is the early return.
unfoldable pub append_values : PropertyTree → Text → List Text → Text → Option Text
append_values pt_tmp user [] value = some value
append_values pt_tmp user (property ∷ properties) value =
    elim (pt_tmp.get (user ++ (codes "." ++ property))) [
      | none ↦ none
      | some v ↦ append_values pt_tmp user properties (value ++ (v ++ codes ":"))
    ]

-- A call of `FassLog::log`, which goes through a pointer: `true` once the log system has been initialized.
abbrev pub call_logger : Bool → Outcome Bool
call_logger true = done true
call_logger false = faults

-- The loop over the users: the entries that were pushed, and whether it came to its end. The last
-- colon of an entry is erased. The early return logs the error.
unfoldable pub load_users : Bool → PropertyTree → List Text → List Text → Outcome (Bool × List Text)
unfolding append_values
load_users logger pt_tmp [] shares = done (true, shares)
load_users logger pt_tmp (user ∷ users) shares =
    elim (append_values pt_tmp user props (user ++ codes ":")) [
      | none ↦ (call_logger logger >>= λ logged. done (false, shares))
      | some value ↦
          (or_throw (erase (length value - 1) npos value) >>= λ entry.
          load_users logger pt_tmp users (shares ++ (entry ∷ [])))
    ]

-- `read_ini` gives `none` where it throws.
unfoldable pub load_shares : Bool → Option PropertyTree → List Text → Outcome (Bool × List Text)
unfolding load_users
load_shares logger none shares = done (false, shares)
load_shares logger (some pt_tmp) shares = load_users logger pt_tmp pt_tmp.sections shares

-- The lines of `print_shares`.
abbrev print_entries : List Text → Text
print_entries [] = []
print_entries (entry ∷ shares) = codes "> " ++ (entry ++ (codes "\n" ++ print_entries shares))

abbrev pub print_shares : List Text → Text
print_shares shares =
    codes "Reading initial shares...\n(username:uid:gid:share:ttl)\n" ++ print_entries shares
