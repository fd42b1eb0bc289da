-- ===== src/Client.antt =====
-- src/client/XMLRPCClient.cc and include/XMLRPCClient.h: calls of OpenNebula. The transport is a
-- parameter: what a remote call comes to once `finishAsync` returns.
use one_fass.Base.{ℕ, ◌*◌, ◌%◌, ◌^◌, ℤ, Bool, Option, none, some, List, [], ◌∷◌}
use one_fass.Text.{Text}
use one_fass.Outcome.{Outcome, done, throws}

-- The values that requests and answers are made of; `other` stands for the types that the program
-- does not tell apart.
mutual
  pub data Value : Type 0 where
    int : ℤ → Value
    boolean : Bool → Value
    string : Text → Value
    double : Text → Value
    array : Values → Value
    other : Value

  pub data Values : Type 0 where
    nil : Values
    cons : Value → Values → Values

abbrev pub of_list : List Value → Values
of_list [] = nil
of_list (v ∷ vs) = cons v (of_list vs)

abbrev pub to_list : Values → List Value
to_list nil = []
to_list (cons v vs) = v ∷ to_list vs

-- `raised`: `start` or `finishAsync` throws. `unfinished`: the time is up. `erred`: the call failed on
-- this side. `failed`: the server answers with a fault. `succeeded`: it answers with a value.
pub data Rpc : Type 0 where
  raised : Rpc
  unfinished : Rpc
  erred : Rpc
  failed : Text → Rpc
  succeeded : Value → Rpc

-- Method and parameters to what the call comes to.
abbrev pub Transport : Type 0
Transport = Text → List Value → Rpc

pub record XmlRpcClient : Type 0 where
  pub auth : Text
  pub endpoint : Text
  pub message_size : ℕ
  pub timeout : ℕ

-- `_timeout = tout * 1000`, as `unsigned int`.
unfoldable pub make_client : Text → Text → ℕ → ℕ → XmlRpcClient
make_client secret endpoint message_size tout = record {
  auth = secret;
  endpoint = endpoint;
  message_size = message_size;
  timeout = (tout * 1000) % 2 ^ 32;
}

-- A fault is made into an exception object that is not thrown, so `result` stays unset: `none`. The
-- call that is not finished is finished with an error, whose `getFault` throws it.
unfoldable pub call_async : Transport → Text → List Value → Outcome (Option Value)
call_async send method plist = elim (send method plist) [
  | raised ↦ throws
  | unfinished ↦ throws
  | erred ↦ throws
  | failed description ↦ done none
  | succeeded v ↦ done (some v)
]

-- `call_sync` adds nothing to the parameters, and the library's client throws whatever goes wrong.
unfoldable pub call_sync : Transport → Text → List Value → Outcome Value
call_sync send method plist = elim (send method plist) [ succeeded v ↦ done v | _ ↦ throws ]

-- The secret goes in front of the parameters.
unfoldable pub call : Transport → XmlRpcClient → Text → List Value → Outcome (Option Value)
unfolding call_async
call send client method plist = call_async send method (string client.auth ∷ plist)

-- Conversions of `xmlrpc_c::value`, which throw at another type and at a value that is not set.
abbrev pub as_array : Option Value → Outcome (List Value)
as_array (some (array vs)) = done (to_list vs)
as_array _ = throws

abbrev pub as_boolean : Value → Outcome Bool
as_boolean (boolean b) = done b
as_boolean _ = throws

abbrev pub as_string : Value → Outcome Text
as_string (string s) = done s
as_string _ = throws

abbrev pub as_int : Value → Outcome ℤ
as_int (int n) = done n
as_int _ = throws
