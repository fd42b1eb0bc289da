-- ===== src/Rpc/Proxy.antt =====
-- src/rpcm/RequestOneProxy.cc: a call that the server does not know is passed on to OpenNebula.
use one_fass.Base.{ℕ, Bool, List, [], take, Option, none, some, if◌then◌else◌}
use one_fass.Text.{Text, codes, find?}
use one_fass.Outcome.{Outcome, done, throws, faults, blocks, ◌>>=◌, element}
use one_fass.Client.{
  Value, int, boolean, string, double, array, other, Transport, call_async, as_array, as_boolean,
  as_string,
}
use one_fass.Rpc.{
  RequestAttributes, success_response, failure_response, internal, xml_rpc_api, get_string,
  log_method_invoked, log_result,
}

-- The user's name: what stands before the colon of the session.
unfoldable pub name_of : Text → Text
name_of session = elim (find? (codes ":") session) [ none ↦ codes "null" | some i ↦ take i session ]

-- What a handler of exceptions gets, and what it lets through.
abbrev pub catching : {A : Type 0} → Outcome A → Outcome A → Outcome A
catching throws handler = handler
catching (done a) handler = done a
catching faults handler = faults
catching blocks handler = blocks

-- The inner `try`: the result stays unset if the call throws.
unfoldable pub forward : Transport → Text → List Value → Outcome (Option Value)
forward send method_name params = catching (call_async send method_name params) (done none)

-- The switch on the type of the second value.
unfoldable pub relay : Value → RequestAttributes → Outcome RequestAttributes
relay (string s) att = done (success_response (string s) att)
relay (int n) att = done (success_response (int n) att)
relay (boolean b) att = done (success_response (boolean b) att)
relay (double d) att = done (failure_response internal att)
relay (array vs) att = done (failure_response internal att)
relay other att = done (failure_response internal att)

unfoldable pub refuse : List Value → RequestAttributes → Outcome RequestAttributes
refuse values att = do
  second ← element 1 values
  message ← as_string second
  done (failure_response xml_rpc_api att)

-- The rest of the outer `try`. After a failure it goes on with the type of the second value.
unfoldable pub respond : List Value → RequestAttributes → Outcome RequestAttributes
unfolding refuse relay
respond values att = do
  first ← element 0 values
  success ← as_boolean first
  att' ← (if success then done att else refuse values att)
  second ← element 1 values
  relay second att'

-- The handler reads the type of the second value for the log.
unfoldable pub apologise : List Value → RequestAttributes → Outcome RequestAttributes
apologise values att = do second ← element 1 values; done (failure_response internal att)

unfoldable pub answered : RequestAttributes → Outcome (List Value) → Outcome RequestAttributes
unfolding respond apologise
answered att (done values) = catching (respond values att) (apologise values att)
answered att throws = apologise [] att
answered att faults = faults
answered att blocks = blocks

unfoldable pub proxy : Transport → Text → List Value → RequestAttributes → Outcome RequestAttributes
unfolding forward answered
proxy send method_name params att = do
  result ← forward send method_name params
  answered att (as_array result)

-- `RequestOneProxy::execute`, with the attributes that are not set from the call.
unfoldable pub execute_proxy :
    Transport
    → Text
    → (ℕ → Bool)
    → Text
    → List Value
    → RequestAttributes
    → Outcome RequestAttributes
unfolding proxy name_of
execute_proxy send format hidden method_name params blank = do
  session ← get_string params
  let att = record blank { session = session; uname = name_of session; retval = none }
  line ← log_method_invoked att method_name hidden params format
  responded ← proxy send method_name params att
  written ← log_result responded method_name
  done responded
