-- ===== src/Daemon/Managers.antt =====
-- The constructors of the managers, in src/pm/PriorityManager.cc, src/terminator/Terminator.cc and
-- src/rpcm/RPCManager.cc, and the one client of include/XMLRPCClient.h that they share.
use one_fass.Base.{ℕ, ℤ, pos, negsuc, ◌-◌, ◌%◌, ◌^◌, Option, none, some, List, []}
use one_fass.Text.{Text, codes}
use one_fass.Outcome.{Outcome, done, ◌>>=◌}
use one_fass.Floating.{Floating}
use one_fass.Boost.{Boost}
use one_fass.User.{User}
use one_fass.Client.{XmlRpcClient, make_client}
use one_fass.PriorityManager.{calculate_initial_shares}

-- A conversion to an unsigned integer of w bits.
abbrev pub to_unsigned : ℕ → ℤ → ℕ
to_unsigned w (pos n) = n % 2 ^ w
to_unsigned w (negsuc n) = 2 ^ w - 1 - n % 2 ^ w

-- What the managers have in common.
pub record Common : Type 0 where
  pub one_endpoint : Text
  pub one_secret : Text
  pub message_size : ℤ
  pub timeout : ℤ
  pub manager_timer : ℤ

-- `XMLRPCClient::initialize`: only the first call makes a client.
abbrev pub initialize : Option XmlRpcClient → Common → XmlRpcClient
initialize none c =
    make_client c.one_secret c.one_endpoint (to_unsigned 64 c.message_size)
      (to_unsigned 32 c.timeout)
initialize (some client) c = client

pub record PmObject (F : Type 0) : Type 0 where
  pub client : XmlRpcClient
  pub shares : List Text
  pub manager_timer : ℤ
  pub start_time : Text
  pub period : ℤ
  pub n_periods : ℤ
  pub plugin_debug : ℤ
  pub user_list : List (User F)
  pub queue : Text

pub record PmSettings : Type 0 where
  pub common : Common
  pub start_time : Text
  pub period : ℤ
  pub n_periods : ℤ
  pub plugin_debug : ℤ

-- The constructor of `PriorityManager`, with the clock, and what it writes to the database.
unfoldable pub make_pm :
    (f : Floating)
    → (b : Boost f.F) → Option XmlRpcClient
    → PmSettings
    → List Text
    → ℤ
    → Outcome (PmObject f.F × List Text)
make_pm f b _client c shares timestamp = do
  (user_list, points) ← calculate_initial_shares f b shares timestamp []
  done (
    record {
      client = initialize _client c.common;
      shares = shares;
      manager_timer = c.common.manager_timer;
      start_time = c.start_time;
      period = c.period;
      n_periods = c.n_periods;
      plugin_debug = c.plugin_debug;
      user_list = user_list;
      queue = codes "<VM_POOL></VM_POOL>";
    },
    points,
  )

pub record TmObject : Type 0 where
  pub client : XmlRpcClient
  pub users : List Text
  pub manager_timer : ℤ
  pub max_wait : ℤ
  pub action : Text

pub record TmSettings : Type 0 where
  pub common : Common
  pub manager_timer : ℤ
  pub max_wait : ℤ
  pub action : Text

abbrev pub make_tm : Option XmlRpcClient → TmSettings → List Text → TmObject
make_tm _client c users = record {
  client = initialize _client c.common;
  users = users;
  manager_timer = c.manager_timer;
  max_wait = c.max_wait;
  action = c.action;
}

-- The message size is narrowed to an `int`.
pub record RpcmObject : Type 0 where
  pub one_endpoint : Text
  pub port : Text
  pub listen_address : Text
  pub max_conn : ℤ
  pub max_conn_backlog : ℤ
  pub keepalive_timeout : ℤ
  pub keepalive_max_conn : ℤ
  pub timeout : ℤ
  pub xml_log_file : Text
  pub call_log_format : Text
  pub message_size : ℤ
