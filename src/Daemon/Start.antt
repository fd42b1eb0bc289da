-- ===== src/Daemon/Start.antt =====
-- `start` of src/fass/Fass.cc up to the wait for a signal: its stages in order, each with what it makes.
-- An exception, or a `throw` with nothing to throw, ends it.
pub mod Stages
pub mod Steps
pub mod Order
pub mod Accounts
pub mod Found
pub mod Completes
pub mod Missing
pub mod Sample
mod Examples
use one_fass.Base.{
  ℕ, ℤ, pos, negsuc, ◌==ℤ◌, Bool, true, false, not, Option, none, some, List, [], ◌∷◌, ◌++◌,
  if◌then◌else◌, narrow_int,
}
use one_fass.Text.{Text, codes, eq_text}
use one_fass.Outcome.{Outcome, done, throws, faults, blocks, ◌>>=◌, or_throw}
use one_fass.Floating.{Floating}
use one_fass.Boost.{Boost}
use one_fass.Client.{Transport, XmlRpcClient}
use one_fass.Config.{PropertyTree, load_shares}
use one_fass.Config.Options.{
  Any, string, int, long_int, bool, is_string, is_int, is_long_int, is_bool, Parsed,
  load_configuration, get_option,
}
use one_fass.Log.{MessageType, get_debug_level}
use one_fass.Daemon.Contact.{rpc_endpoint, wait_for_one}
use one_fass.Daemon.Managers.{
  PmSettings, TmSettings, Common, initialize, PmObject, make_pm, TmObject, make_tm, RpcmObject,
}
use one_fass.Rpc.Socket.{Net, Holding}
use one_fass.Rpc.Socket

-- What the world answers: `gethostname`, the two files, the opening of the log, OpenNebula's answers
-- over the attempts, the clock, and the network. `patience` bounds the attempts.
pub record World : Type 0 where
  pub hostname_rc : ℤ
  pub fassd_conf : Option Parsed
  pub shares_conf : Option PropertyTree
  pub log_location : Text
  pub log_opens : Bool
  pub patience : ℕ
  pub attempts : ℕ → Transport
  pub timestamp : ℤ
  pub net : Net

pub data Started : Type 0 where
  pm_started : Started
  tm_started : Started
  rpcm_started : Started

pub record Database : Type 0 where
  pub endpoint : Text
  pub port : ℤ
  pub name : Text

abbrev pub Variables : Type 0
Variables = Text → Option Any

-- Where the option is not found a `string` stays empty, and a number is read that was never set.
abbrev pub text_or : Option Any → Text
text_or (some (string t)) = t
text_or _ = []

abbrev pub int_or : Option Any → Outcome ℤ
int_or (some (int n)) = done n
int_or _ = faults

abbrev pub long_or : Option Any → Outcome ℤ
long_or (some (long_int n)) = done n
long_or _ = faults

abbrev pub bool_or : Option Any → Outcome Bool
bool_or (some (bool v)) = done v
bool_or _ = faults

abbrev pub get_string : Variables → Text → Text → Text
get_string vm section name = text_or (get_option is_string vm section name)

abbrev pub get_int : Variables → Text → Text → Outcome ℤ
get_int vm section name = int_or (get_option is_int vm section name)

abbrev pub get_long : Variables → Text → Text → Outcome ℤ
get_long vm section name = long_or (get_option is_long_int vm section name)

abbrev pub get_bool : Variables → Text → Text → Outcome Bool
get_bool vm section name = bool_or (get_option is_bool vm section name)

abbrev pub read_common : Variables → Outcome Common
read_common vm = do
  message_size ← get_long vm (codes "rpcm") (codes "message_size")
  timeout ← get_int vm (codes "rpcm") (codes "timeout")
  manager_timer ← get_int vm (codes "pm") (codes "manager_timer")
  done (record {
    one_endpoint =
        rpc_endpoint (get_string vm (codes "fass") (codes "one_endpoint"))
          (get_string vm (codes "fass") (codes "one_port"));
    one_secret = get_string vm (codes "fass") (codes "one_secret");
    message_size = message_size;
    timeout = timeout;
    manager_timer = manager_timer;
  })

abbrev pub read_pm : Variables → Outcome PmSettings
read_pm vm = do
  common ← read_common vm
  period ← get_int vm (codes "pm") (codes "period")
  n_periods ← get_int vm (codes "pm") (codes "n_periods")
  plugin_debug ← get_int vm (codes "pm") (codes "plugin_debug")
  done (record {
    common = common;
    start_time = get_string vm (codes "pm") (codes "start_time");
    period = period;
    n_periods = n_periods;
    plugin_debug = plugin_debug;
  })

abbrev pub read_tm : Variables → Outcome TmSettings
read_tm vm = do
  common ← read_common vm
  manager_timer ← get_int vm (codes "terminator") (codes "manager_timer")
  max_wait ← get_long vm (codes "terminator") (codes "max_wait")
  done (record {
    common = common;
    manager_timer = manager_timer;
    max_wait = max_wait;
    action = get_string vm (codes "terminator") (codes "action");
  })

-- The constructor of `RPCManager` keeps its arguments.
abbrev pub read_rpcm : Text → Variables → Outcome RpcmObject
read_rpcm log_location vm = do
  common ← read_common vm
  max_conn ← get_int vm (codes "rpcm") (codes "max_conn")
  max_conn_backlog ← get_int vm (codes "rpcm") (codes "max_conn_backlog")
  keepalive_timeout ← get_int vm (codes "rpcm") (codes "keepalive_timeout")
  keepalive_max_conn ← get_int vm (codes "rpcm") (codes "keepalive_max_conn")
  rpc_log ← get_bool vm (codes "rpcm") (codes "rpc_log")
  done (record {
    one_endpoint = common.one_endpoint;
    port = get_string vm (codes "rpcm") (codes "listen_port");
    listen_address = get_string vm (codes "rpcm") (codes "listen_address");
    max_conn = max_conn;
    max_conn_backlog = max_conn_backlog;
    keepalive_timeout = keepalive_timeout;
    keepalive_max_conn = keepalive_max_conn;
    timeout = common.timeout;
    xml_log_file = if rpc_log then log_location ++ codes "fass_xmlrpc.log" else [];
    call_log_format = get_string vm (codes "rpcm") (codes "log_call_format");
    message_size = narrow_int common.message_size;
  })

-- What `start` has made: the members of `Fass`, the client, the threads that run, the points that
-- were written to the database, and what the process holds of the network.
pub record Fass (F : Type 0) : Type 0 where
  pub vm : Variables
  pub shares : List Text
  pub level : Option MessageType
  pub database : Option Database
  pub client : Option XmlRpcClient
  pub pm : Option (PmObject F)
  pub points : List Text
  pub tm : Option TmObject
  pub rpcm : Option RpcmObject
  pub held : Holding
  pub threads : List Started

abbrev pub no_holding : Holding
no_holding = record { fds = []; infos = 0 }

abbrev pub no_fass : {F : Type 0} → Fass F
no_fass = record {
  vm = λ name. none;
  shares = [];
  level = none;
  database = none;
  client = none;
  pm = none;
  points = [];
  tm = none;
  rpcm = none;
  held = no_holding;
  threads = [];
}
