-- ===== src/Daemon.antt =====
-- `main` of src/fass/fassd.cc, and the directories of include/Fass.h.
pub mod Lock
pub mod Paths
pub mod Contact
pub mod Managers
pub mod Start
pub mod Stop
mod Examples
use one_fass.Base.{
  ℕ, ℤ, pos, negsuc, ◌==ℤ◌, ◌==◌, not, Bool, true, false, ◌&&◌, ◌||◌, Option, none, some, List, [],
  ◌∷◌, ◌++◌, ◌⊎◌, inl, inr, if◌then◌else◌,
}
use one_fass.Text.{Text, codes}
use one_fass.Outcome.{Outcome, done, throws}

-- What `getopt_long` returns, option by option.
pub data Flag : Type 0 where
  version : Flag
  help : Flag
  init_db : Flag
  in_foreground : Flag
  unknown : Flag

-- Both `fassd_main` and `fassd_init` run `start`, the latter through `bootstrap_db`.
pub data Act : Type 0 where
  print_license : Act
  print_help : Act
  print_usage : Act
  fassd_init : Act
  create : Text → Act
  chdir : Text → Act
  setsid : Act
  fassd_main : Act
  unlink : Text → Act

-- The loop over the options: what it exits with, or else whether to stay in the foreground.
unfoldable pub read_flags : List Flag → Bool → (Act × ℤ) ⊎ Bool
read_flags [] foreground = inr foreground
read_flags (version ∷ flags) foreground = inl (print_license, pos 0)
read_flags (help ∷ flags) foreground = inl (print_help, pos 0)
read_flags (init_db ∷ flags) foreground = inl (fassd_init, pos 0)
read_flags (in_foreground ∷ flags) foreground = read_flags flags true
read_flags (unknown ∷ flags) foreground = inl (print_usage, negsuc 0)

-- What the system answers: `getenv("FASS_LOCATION")`, whether the lock file can be made where there is
-- none, the results of `fork`, `chdir` and `setsid`, and whether `fassd_main` returns: it catches the
-- exceptions of the library, but a `throw` with nothing to throw, a null pointer or a signal ends the
-- process in it.
pub record System : Type 0 where
  pub location : Option Text
  pub can_create : Bool
  pub pid : ℤ
  pub chdir_rc : ℤ
  pub sid : ℤ
  pub main_returns : Bool

-- What this process has done, its exit code, which it has none if it ends in `fassd_main`, and whether
-- the lock file is there in the end.
pub record Run : Type 0 where
  pub acts : List Act
  pub code : Option ℤ
  pub locked : Bool

unfoldable pub daemon_var : Option Text → Text
daemon_var none = codes "/var/lib/fass/"
daemon_var (some fl) = fl ++ codes "/var/"

unfoldable pub lockfile : Option Text → Text
unfolding daemon_var
lockfile none = codes "/var/lock/fass/fass"
lockfile (some fl) = daemon_var (some fl) ++ codes ".lock"

-- The case of the child, or of the process that stays in the foreground.
child : System → Bool → Run
unfolding lockfile
child sys foreground =
    let lock = lockfile sys.location in
    let wd = chdir (daemon_var sys.location) in
    if not (sys.chdir_rc ==ℤ pos 0)
    then record { acts = create lock ∷ unlink lock ∷ []; code = some (negsuc 0); locked = false }
    else if not foreground && (sys.sid ==ℤ negsuc 0)
    then record {
      acts = create lock ∷ wd ∷ unlink lock ∷ [];
      code = some (negsuc 0);
      locked = false;
    }
    else record {
      acts =
          create lock ∷ wd ∷ (if foreground then [] else setsid ∷ [])
          ++ (fassd_main ∷ (if sys.main_returns then unlink lock ∷ [] else []));
      code = if sys.main_returns then some (pos 0) else none;
      locked = not sys.main_returns;
    }

by_pid : System → Bool → ℤ → Run
unfolding child
by_pid sys foreground pid =
    let lock = create (lockfile sys.location) in
    if pid ==ℤ negsuc 0
    then record { acts = lock ∷ []; code = some (negsuc 0); locked = true }
    else if pid ==ℤ pos 0
    then child sys foreground
    else record { acts = lock ∷ []; code = some (pos 0); locked = true }

-- `O_CREAT|O_EXCL` fails on a lock file that is there.
launch : System → Bool → Bool → Run
unfolding by_pid
launch sys exists foreground =
    if exists || not sys.can_create
    then record { acts = []; code = some (negsuc 0); locked = exists }
    else by_pid sys foreground (if foreground then pos 0 else sys.pid)

pub main : System → List Flag → Bool → Run
unfolding read_flags launch
main sys flags exists = elim (read_flags flags false) [
  | inl e ↦ record { acts = e.0 ∷ []; code = some e.1; locked = exists }
  | inr foreground ↦ launch sys exists foreground
]

-- The constructor of `Fass`.
pub record Locations : Type 0 where
  pub etc_location : Text
  pub log_location : Text
  pub var_location : Text

abbrev pub last : Text → Option ℕ
last [] = none
last (c ∷ []) = some c
last (c ∷ d ∷ w) = last (d ∷ w)

-- `at(size() - 1)` of an empty text throws.
unfoldable pub locations : Option Text → Outcome Locations
locations none = done (record {
  etc_location = codes "/etc/fass/";
  log_location = codes "/var/log/fass/";
  var_location = codes "/var/lib/fass/";
})
locations (some nl) = elim (last nl) [
  | none ↦ throws
  | some c ↦
      let fass_location = if c == b'/' then nl else nl ++ codes "/" in
      done (record {
        etc_location = fass_location ++ codes "etc/";
        log_location = fass_location ++ codes "var/";
        var_location = fass_location ++ codes "var/";
      })
]
