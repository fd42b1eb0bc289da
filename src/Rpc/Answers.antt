-- ===== src/Rpc/Answers.antt =====
-- What a client of the server is told.
use one_fass.Base.{
  ℕ, pos, Bool, true, false, List, [], ◌∷◌, Option, none, some, ◌≡◌, ◌≢◌, refl, ◌⊎◌, inl, inr,
}
use one_fass.Text.{Text, codes}
use one_fass.Outcome.{done, throws, faults}
use one_fass.Client.{Value, int, boolean, string, array, of_list, Transport, call_async}
use one_fass.Rpc.{
  get_string, RequestAttributes, success_response, log_format, log_method_invoked, log_result,
}
use one_fass.Rpc.Proxy.{execute_proxy, name_of}
use one_fass.Rpc.Methods.{Server, serve, new_attributes, no_hidden, reordered_queue}

-- The array of a success.
abbrev pub answer : Value → Option Value
answer v = some (array (of_list (boolean true ∷ v ∷ int (pos 0) ∷ [])))

log_method_invoked_some :
    (att : RequestAttributes) (method_name : Text) (hidden : ℕ → Bool) (params : List Value)
    (format : Text)
    → format ≢ []
    → (line : Text) × (log_method_invoked att method_name hidden params format ≡ done line)
unfolding log_method_invoked
log_method_invoked_some att method_name hidden params [] h = absurd (h refl)
log_method_invoked_some att method_name hidden params (c ∷ s) h =
    (log_format att method_name hidden params (c ∷ s), refl)

-- Whatever OpenNebula does, a call of `one.vmpool.info` with a session is answered with the queue, if
-- the log format is not empty and the user of the process has a name.
pub serve-queue :
    (send : Transport) (server : Server) (session : Text) (params : List Value) (uname : Text)
    → server.call_log_format ≢ []
    → server.user_name ≡ some uname
    → (r : RequestAttributes) × (serve send server
          (codes "one.vmpool.info")
          (string session ∷ params)
        ≡ done r)
      × (r.retval ≡ answer (string server.queue))
unfolding serve log_result get_string
serve-queue send server session params uname some_format named =
    let att = new_attributes server uname session in
    let (line, logged) =
      log_method_invoked_some att (codes "ReorderedQueue") no_hidden (string session ∷ params)
        server.call_log_format some_format in
    (reordered_queue server att, rw (named, logged), refl)

module _ (send : Transport) (format : Text) (hidden : ℕ → Bool) (method_name : Text) where
  -- If the call of OpenNebula throws, or comes back without a value, the proxy reads behind the
  -- end of an empty vector; the call has a session, and the log format is not empty.
  pub execute_proxy-unreachable :
      (session : Text) (params : List Value) (blank : RequestAttributes)
      → format ≢ []
      → (call_async send method_name (string session ∷ params) ≡ throws)
        ⊎ (call_async send method_name (string session ∷ params) ≡ done none)
      → execute_proxy send format hidden method_name (string session ∷ params) blank ≡ faults
  unfolding execute_proxy one_fass.Rpc.get_string
  execute_proxy-unreachable session params blank some_format h =
      let att : RequestAttributes = record blank {
        session = session;
        uname = name_of session;
        retval = none;
      } in
      let (line, logged) =
        log_method_invoked_some att method_name hidden (string session ∷ params) format
          some_format in
      elim h [ inl e ↦ rw (logged, e) | inr e ↦ rw (logged, e) ]

  -- If OpenNebula refuses a call with a message, the client is told that the call succeeded, with
  -- the message as its result; the call has a session, and the log format is not empty.
  pub execute_proxy-refused :
      (session : Text) (params : List Value) (blank : RequestAttributes) (message : Text)
      (more : List Value)
      → format ≢ []
      → call_async send method_name (string session ∷ params)
        ≡ done (some (array (of_list (boolean false ∷ string message ∷ more))))
      → (r : RequestAttributes) × (execute_proxy send format hidden method_name
            (string session ∷ params)
            blank
          ≡ done r)
        × (r.retval ≡ answer (string message))
  unfolding execute_proxy log_result one_fass.Rpc.get_string one_fass.Text.find?
  execute_proxy-refused session params blank message more some_format e =
      let att : RequestAttributes = record blank {
        session = session;
        uname = name_of session;
        retval = none;
      } in
      let (line, logged) =
        log_method_invoked_some att method_name hidden (string session ∷ params) format
          some_format in
      (success_response (string message) att, rw (logged, e), refl)
