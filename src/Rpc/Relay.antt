-- ===== src/Rpc/Relay.antt =====
-- What the proxy answers when it returns.
use one_fass.Base.{
  ℕ, Bool, false, List, [], ◌∷◌, Option, none, some, ◌≡◌, refl, ◌⊎◌, inl, inr, if◌then◌else◌,
}
use one_fass.Text.{Text}
use one_fass.Outcome.{Outcome, done, throws, faults, blocks, element, >>=-eq-done, done-injective}
use one_fass.Client.{
  Value, int, boolean, string, double, array, other, of_list, Transport, as_array, as_boolean,
}
use one_fass.Rpc.{
  RequestAttributes, ErrorCode, internal, code_of, get_string, log_method_invoked, log_result,
}
use one_fass.Rpc.Proxy.{
  execute_proxy, name_of, forward, proxy, answered, respond, relay, refuse, apologise, catching,
}
use one_fass.Rpc.Answers.{answer}

-- A string, a number or a Boolean.
abbrev pub IsScalar : Value → Type 0
IsScalar (string s) = Unit
IsScalar (int n) = Unit
IsScalar (boolean b) = Unit
IsScalar (double d) = ⊥
IsScalar (array vs) = ⊥
IsScalar other = ⊥

-- The second value of OpenNebula's answer, as a success.
abbrev pub Relayed : Outcome (List Value) → RequestAttributes → Type 0
Relayed o a =
    (values : List Value) × (v : Value) × (o ≡ done values)
    × (element 1 values ≡ done v)
    × IsScalar v
    × (a.retval ≡ answer v)

abbrev Refusal : RequestAttributes → Type 0
Refusal a =
    (ec : ErrorCode) × (a.retval ≡ some (array (of_list (boolean false ∷ int (code_of ec) ∷ []))))

catching-eq-done :
    {A : Type 0} (o h : Outcome A) {a : A} → catching o h ≡ done a → (o ≡ done a) ⊎ (h ≡ done a)
catching-eq-done (done b) h e = inl e
catching-eq-done throws h e = inr e
catching-eq-done faults h e = inl e
catching-eq-done blocks h e = inl e

relay_inv :
    (v : Value) (att : RequestAttributes) {a : RequestAttributes}
    → relay v att ≡ done a
    → (IsScalar v × (a.retval ≡ answer v)) ⊎ Refusal a
unfolding relay
relay_inv (string s) att e = inl (tt, rw (← done-injective _ _ e) refl)
relay_inv (int n) att e = inl (tt, rw (← done-injective _ _ e) refl)
relay_inv (boolean b) att e = inl (tt, rw (← done-injective _ _ e) refl)
relay_inv (double d) att e = inr (internal, rw (← done-injective _ _ e) refl)
relay_inv (array vs) att e = inr (internal, rw (← done-injective _ _ e) refl)
relay_inv other att e = inr (internal, rw (← done-injective _ _ e) refl)

apologise_inv :
    (values : List Value) (att : RequestAttributes) {a : RequestAttributes}
    → apologise values att ≡ done a
    → Refusal a
unfolding apologise
apologise_inv values att e =
    let (v, at, made) = >>=-eq-done (element 1 values) _ e in
    (internal, rw (← done-injective _ _ made) refl)

answered_inv :
    (att : RequestAttributes) (o : Outcome (List Value)) {a : RequestAttributes}
    → answered att o ≡ done a
    → Relayed o a ⊎ Refusal a
unfolding answered respond
answered_inv att (done values) e = elim (catching-eq-done (respond values att) _ e) [
  | inr h ↦ inr (apologise_inv values att h)
  | inl h ↦
      let (first, e0, r0) = >>=-eq-done (element 0 values) _ h in
      let (success, e1, r1) = >>=-eq-done (as_boolean first) _ r0 in
      let (att', e2, r2) = >>=-eq-done (if success then done att else refuse values att) _ r1 in
      let (second, e3, r3) = >>=-eq-done (element 1 values) _ r2 in
      elim (relay_inv second att' r3) [
        | inl (scalar, told) ↦ inl (values, second, refl, e3, scalar, told)
        | inr refusal ↦ inr refusal
      ]
]
answered_inv att throws e = inr (apologise_inv [] att e)
answered_inv att faults e = cc
answered_inv att blocks e = cc

Refusal-log_result :
    (a : RequestAttributes) (method_name : Text) → Refusal a → log_result a method_name ≡ throws
unfolding log_result
Refusal-log_result a method_name (ec, e) = rw e

-- When the proxy returns without an exception, the client is told of a success, and the result is the
-- second value of an array that OpenNebula answered with, a string, a number or a Boolean: no failure
-- ever reaches the client as an answer.
pub execute_proxy-Relayed :
    (send : Transport) (format : Text) (hidden : ℕ → Bool) (method_name : Text)
    (params : List Value) (blank : RequestAttributes) {r : RequestAttributes}
    → execute_proxy send format hidden method_name params blank ≡ done r
    → (result : Option Value) × (forward send method_name params ≡ done result)
      × Relayed (as_array result) r
unfolding execute_proxy proxy
execute_proxy-Relayed send format hidden method_name params blank {r} e =
    let (session, e1, r1) = >>=-eq-done (get_string params) _ e in
    let att : RequestAttributes = record blank {
      session = session;
      uname = name_of session;
      retval = none;
    } in
    let (line, e2, r2) =
      >>=-eq-done (log_method_invoked att method_name hidden params format) _ r1 in
    let (responded, e3, r3) = >>=-eq-done (proxy send method_name params att) _ r2 in
    let (written, e4, r4) = >>=-eq-done (log_result responded method_name) _ r3 in
    let (result, e5, r5) = >>=-eq-done (forward send method_name params) _ e3 in
    rw (← done-injective responded r r4) (elim (answered_inv att (as_array result) r5) [
      | inl relayed ↦ (result, e5, relayed)
      | inr refusal ↦ let wrong = rw (Refusal-log_result responded method_name refusal) at e4 in cc
    ])
