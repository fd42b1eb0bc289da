-- ===== src/Rpc.antt =====
-- src/rpcm/Request.cc and include/Request.h: what is common to the calls that the server takes: the
-- answers, and the lines of the log.
pub mod Format
pub mod Proxy
pub mod Methods
pub mod Answers
pub mod Relay
pub mod Socket
mod Examples
use one_fass.Base.{
  ℕ, suc, ◌+◌, ℤ, pos, Bool, true, false, List, [], ◌∷◌, ◌++◌, ◌==◌, ltb, length, take,
  if◌then◌else◌, Option, none, some,
}
use one_fass.Text.{Text, codes, find}
use one_fass.Text.Decimal.{dec}
use one_fass.Outcome.{Outcome, done, throws, faults, ◌>>=◌, element}
use one_fass.Client.{
  Value, int, boolean, string, double, array, other, of_list, as_array, as_boolean, as_string,
}

-- `retval` is `none` until a response is built.
pub record RequestAttributes : Type 0 where
  pub uid : ℤ
  pub gid : ℤ
  pub uname : Text
  pub gname : Text
  pub password : Text
  pub session : Text
  pub req_id : ℤ
  pub retval : Option Value

pub data ErrorCode : Type 0 where
  success : ErrorCode
  xml_rpc_api : ErrorCode
  internal : ErrorCode

abbrev pub code_of : ErrorCode → ℤ
code_of success = pos 0
code_of xml_rpc_api = pos 4096
code_of internal = pos 8192

-- The three overloads differ in the type of the value only.
abbrev pub success_response : Value → RequestAttributes → RequestAttributes
success_response v att = record att {
  retval = some (array (of_list (boolean true ∷ v ∷ int (code_of success) ∷ [])));
}

abbrev pub failure_response : ErrorCode → RequestAttributes → RequestAttributes
failure_response ec att = record att {
  retval = some (array (of_list (boolean false ∷ int (code_of ec) ∷ [])));
}

-- `paramList.getString(0)` throws where there is no parameter, and where it is no string.
unfoldable pub get_string : List Value → Outcome Text
get_string [] = throws
get_string (v ∷ vs) = as_string v

-- A string is cut at its first newline and behind twenty bytes.
unfoldable pub log_xmlrpc_value : Value → Text
log_xmlrpc_value (int n) = codes ", " ++ dec n
log_xmlrpc_value (boolean true) = codes ", true"
log_xmlrpc_value (boolean false) = codes ", false"
log_xmlrpc_value (string s) =
    let st_newline = find (codes "\n") s in
    let st_limit = if ltb st_newline 20 then st_newline else 20 in
    codes ", \""
    ++ (take st_limit s ++ ((if ltb st_limit (length s) then codes "..." else []) ++ codes "\""))
log_xmlrpc_value (double digits) = codes ", " ++ digits
log_xmlrpc_value (array vs) = codes ", unknown param type"
log_xmlrpc_value other = codes ", unknown param type"

-- The parameters from `i` on; `hidden` says which are not to be shown.
unfoldable pub log_params : (ℕ → Bool) → ℕ → List Value → Text
unfolding log_xmlrpc_value
log_params hidden i [] = []
log_params hidden i (v ∷ vs) =
    (if hidden i then codes ", ****" else log_xmlrpc_value v) ++ log_params hidden (suc i) vs

module _ (att : RequestAttributes) (method_name : Text) (hidden : ℕ → Bool)
    (params : List Value) where
  -- What stands for `%` and the character behind it.
  unfoldable pub log_directive : ℕ → Text
  unfolding log_params
  log_directive modifier =
      if modifier == b'%'
      then codes "%"
      else if modifier == b'i'
      then dec att.req_id
      else if modifier == b'u'
      then dec att.uid
      else if modifier == b'U'
      then att.uname
      else if modifier == b'g'
      then dec att.gid
      else if modifier == b'G'
      then att.gname
      else if modifier == b'p'
      then att.password
      else if modifier == b'a'
      then att.session
      else if modifier == b'm'
      then method_name
      else if modifier == b'l'
      then log_params hidden 1 (rest params)
      else (b'%' ∷ modifier ∷ [])
    where
      rest : List Value → List Value
      rest [] = []
      rest (v ∷ vs) = vs

  -- The loop, from a place in the format; it stops one character before the end.
  unfoldable pub log_format : Text → Text
  unfolding log_directive
  log_format [] = []
  log_format (c ∷ []) = []
  log_format (c ∷ modifier ∷ s) =
      let plain = log_format (modifier ∷ s) in
      let behind = log_format s in if c == b'%' then log_directive modifier ++ behind else c ∷ plain

  -- For an empty format `length() - 1` is the largest number, and the loop reads behind the end.
  unfoldable pub log_method_invoked : Text → Outcome Text
  unfolding log_format
  log_method_invoked [] = faults
  log_method_invoked (c ∷ s) = done (log_format (c ∷ s))

-- The values from the second to the last but one.
unfoldable pub log_middle : List Value → Text
unfolding log_xmlrpc_value
log_middle [] = []
log_middle (v ∷ []) = []
log_middle (v ∷ w ∷ vs) = log_xmlrpc_value v ++ log_middle (w ∷ vs)

-- `log_result`: a failure is read as a string.
unfoldable pub log_result : RequestAttributes → Text → Outcome Text
unfolding log_middle
log_result att method_name = do
  vvalue ← as_array att.retval
  first ← element 0 vvalue
  ok ← as_boolean first
  let head =
      codes "Req:"
      ++ (dec att.req_id
          ++ (codes " UNAME:" ++ (att.uname ++ (codes " " ++ (method_name ++ codes " result ")))))
  if ok then succeeded head vvalue else failed head vvalue
  where
    succeeded : Text → List Value → Outcome Text
    succeeded head [] = faults
    succeeded head (v ∷ vs) = done (head ++ (codes "SUCCESS" ++ log_middle vs))

    failed : Text → List Value → Outcome Text
    failed head vvalue = do
      second ← element 1 vvalue
      message ← as_string second
      done (head ++ (codes "FAILURE " ++ message))
