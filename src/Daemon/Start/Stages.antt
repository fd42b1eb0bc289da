-- ===== src/Daemon/Start/Stages.antt =====
-- The stages of `Fass::start`, and the start as their sequence.
use one_fass.Base.{ℕ, pos, ◌==ℤ◌, Bool, true, false, not, Option, none, some, List, [], ◌∷◌, ◌++◌}
use one_fass.Text.{codes, eq_text}
use one_fass.Outcome.{Outcome, done, throws, faults, blocks, ◌>>=◌, or_throw}
use one_fass.Floating.{Floating}
use one_fass.Boost.{Boost}
use one_fass.Config.{load_shares}
use one_fass.Config.Options.{load_configuration}
use one_fass.Log.{get_debug_level}
use one_fass.Log.Shared.{init_log_system}
use one_fass.Daemon.Contact.{wait_for_one}
use one_fass.Daemon.Managers.{initialize, make_pm, make_tm}
use one_fass.Daemon.Start.{
  World, pm_started, tm_started, rpcm_started, Fass, no_fass, get_string, get_int, read_common,
  read_pm, read_tm, read_rpcm,
}
use one_fass.Rpc.Socket

-- `throw runtime_error` where the test fails.
abbrev pub require : Bool → Outcome Bool
require true = done true
require false = throws

-- A wait that goes on for longer.
abbrev pub in_time : Option ℕ → Outcome ℕ
in_time none = blocks
in_time (some k) = done k

module _ (f : Floating) (b : Boost f.F) (w : World) where
  unfoldable pub configure : Fass f.F → Outcome (Fass f.F)
  configure s = do
    named ← require (w.hostname_rc ==ℤ pos 0)
    vm ← or_throw (load_configuration w.fassd_conf)
    done (record s { vm = vm })

  -- The log is not yet open.
  unfoldable pub read_shares : Fass f.F → Outcome (Fass f.F)
  read_shares s = do
    (rc, shares) ← load_shares false w.shares_conf []
    loaded ← require rc
    done (record s { shares = shares })

  unfoldable pub open_log : Fass f.F → Outcome (Fass f.F)
  open_log s = do
    level ← get_int s.vm (codes "fass") (codes "log_level")
    log ← init_log_system w.log_opens
    done (record s { level = some (get_debug_level level) })

  -- What the constructor of `InfluxDb` finds is only logged.
  unfoldable pub open_database : Fass f.F → Outcome (Fass f.F)
  open_database s = do
    port ← get_int s.vm (codes "database") (codes "port")
    known ← require (eq_text (get_string s.vm (codes "database") (codes "type")) (codes "influxdb"))
    done (record s {
      database = some (record {
        endpoint = get_string s.vm (codes "database") (codes "endpoint");
        port = port;
        name = get_string s.vm (codes "database") (codes "name");
      });
    })

  -- The wait for OpenNebula makes the client.
  unfoldable pub contact_one : Fass f.F → Outcome (Fass f.F)
  contact_one s = do
    common ← read_common s.vm
    let client = initialize s.client common
    waited ← wait_for_one w.patience w.attempts client
    k ← in_time waited
    done (record s { client = some client })

  unfoldable pub build_pm : Fass f.F → Outcome (Fass f.F)
  build_pm s = do
    c ← read_pm s.vm
    (pm, points) ← make_pm f b s.client c s.shares w.timestamp
    done (record s { pm = some pm; client = some pm.client; points = points })

  -- `PriorityManager::start` makes the thread, and so does that of the terminator.
  unfoldable pub start_pm : Fass f.F → Outcome (Fass f.F)
  start_pm s = done (record s { threads = s.threads ++ (pm_started ∷ []) })

  unfoldable pub build_tm : Fass f.F → Outcome (Fass f.F)
  build_tm s = do
    c ← read_tm s.vm
    let tm = make_tm s.client c s.shares
    done (record s { tm = some tm; client = some tm.client })

  unfoldable pub start_tm : Fass f.F → Outcome (Fass f.F)
  start_tm s = done (record s { threads = s.threads ++ (tm_started ∷ []) })

  unfoldable pub build_rpcm : Fass f.F → Outcome (Fass f.F)
  build_rpcm s = do rpcm ← read_rpcm w.log_location s.vm; done (record s { rpcm = some rpcm })

  unfoldable pub start_rpcm : Fass f.F → Outcome (Fass f.F)
  start_rpcm s = do
    (rc, running, held) ← Socket.start w.net s.held
    started ← require (not (rc ==ℤ pos 0))
    done (record s { held = held; threads = s.threads ++ (rpcm_started ∷ []) })

  unfoldable pub next_stage :
      (Fass f.F → Fass f.F × Outcome (Fass f.F))
      → Fass f.F
      → Outcome (Fass f.F)
      → Fass f.F × Outcome (Fass f.F)
  next_stage rest s (done t) = rest t
  next_stage rest s throws = (s, throws)
  next_stage rest s faults = (s, faults)
  next_stage rest s blocks = (s, blocks)

  -- What is there when the sequence ends, and whether it came to its end.
  unfoldable pub run_stages :
      List (Fass f.F → Outcome (Fass f.F)) → Fass f.F → Fass f.F × Outcome (Fass f.F)
  unfolding next_stage
  run_stages [] s = (s, done s)
  run_stages (stage ∷ stages) s = next_stage (run_stages stages) s (stage s)

  abbrev pub stages : List (Fass f.F → Outcome (Fass f.F))
  stages =
      configure ∷ read_shares ∷ open_log ∷ open_database ∷ contact_one ∷ build_pm ∷ start_pm
      ∷ build_tm ∷ start_tm ∷ build_rpcm ∷ start_rpcm ∷ []

  unfoldable pub start : Fass f.F × Outcome (Fass f.F)
  unfolding run_stages
  start = run_stages stages no_fass
