-- ===== src/Rpc/Methods.antt =====
-- src/rpcm/RequestSystem.cc, RequestQueue.cc and RPCManager.cc: the two methods that the server answers
-- itself, and which handler takes a call.
use one_fass.Base.{ℕ, ℤ, Bool, false, List, [], Option, none, if◌then◌else◌}
use one_fass.Text.{Text, codes, eq_text}
use one_fass.Outcome.{Outcome, done, ◌>>=◌, or_fault}
use one_fass.Client.{Value, string, Transport}
use one_fass.Rpc.{RequestAttributes, success_response, get_string, log_method_invoked, log_result}
use one_fass.Rpc.Proxy.{execute_proxy}

-- What the methods read. `user_name` is `none` where `getpwuid_r` finds no entry.
pub record Server : Type 0 where
  pub version : Text
  pub queue : Text
  pub call_log_format : Text
  pub uid : ℤ
  pub gid : ℤ
  pub user_name : Option Text
  pub req_id : ℤ

abbrev pub system_version : Server → RequestAttributes → RequestAttributes
system_version server att = success_response (string server.version) att

abbrev pub reordered_queue : Server → RequestAttributes → RequestAttributes
reordered_queue server att = success_response (string server.queue) att

-- `hidden_params` is empty.
abbrev pub no_hidden : ℕ → Bool
no_hidden i = false

abbrev pub new_attributes : Server → Text → Text → RequestAttributes
new_attributes server uname session = record {
  uid = server.uid;
  gid = server.gid;
  uname = uname;
  gname = [];
  password = [];
  session = session;
  req_id = server.req_id;
  retval = none;
}

-- What the constructors set; the signature and the help are for the introspection of the library.
pub record Request : Type 0 where
  pub method_name : Text
  pub format_str : Text
  pub signature : Text
  pub help : Text

abbrev pub make_request : Text → Text → Text → Text → Request
make_request mn fs signature help = record {
  method_name = mn;
  format_str = fs;
  signature = signature;
  help = help;
}

-- `RequestSystem` and `RequestQueue` take the help before the parameters.
abbrev pub make_method : Text → Text → Text → Text → Request
make_method method_name format_str help params = make_request method_name format_str params help

abbrev pub system_version_method : Text → Request
system_version_method format_str =
    make_method (codes "SystemVersion") format_str (codes "Returns the FASS version") (codes "A:s")

abbrev pub reordered_queue_method : Text → Request
reordered_queue_method format_str =
    make_method (codes "ReorderedQueue") format_str (codes "Returns the reordered queue")
      (codes "A:s")

abbrev pub one_proxy_method : Text → Request
one_proxy_method format_str =
    make_request (codes "OneProxy") format_str []
      (codes "Forwards all unhandled methods to ONE endpoint")

-- `Request::execute` around the method's own `request_execute`.
unfoldable pub execute :
    (Server → RequestAttributes → RequestAttributes)
    → Request
    → Server
    → List Value
    → Outcome RequestAttributes
execute request_execute method server params = do
  uname ← or_fault server.user_name
  session ← get_string params
  let att = new_attributes server uname session
  line ← log_method_invoked att method.method_name no_hidden params method.format_str
  let responded = request_execute server att
  written ← log_result responded method.method_name
  done responded

-- The registry, with the proxy as the default method.
unfoldable pub serve : Transport → Server → Text → List Value → Outcome RequestAttributes
unfolding execute
serve send server method params =
    let format = server.call_log_format in
    if eq_text method (codes "fass.system.version")
    then execute system_version (system_version_method format) server params
    else if eq_text method (codes "one.vmpool.info")
    then execute reordered_queue (reordered_queue_method format) server params
    else execute_proxy send (one_proxy_method format).format_str no_hidden method params
        (new_attributes server [] [])
