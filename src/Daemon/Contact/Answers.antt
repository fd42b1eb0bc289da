-- ===== src/Daemon/Contact/Answers.antt =====
-- Which answers of OpenNebula end the loop that waits for it.
use one_fass.Base.{ℕ, ◌<◌, Bool, true, false, some, [], ◌∷◌, ◌≡◌, ◌↔◌, ◌⊎◌, inl, inr, refl}
use one_fass.Text.{codes}
use one_fass.Outcome.{Outcome, done, faults}
use one_fass.Client.{
  call_async, Transport, XmlRpcClient, call, Rpc, raised, unfinished, erred, failed, succeeded, int,
  boolean, string, double, array, other, nil, cons,
}
use one_fass.Daemon.Contact.{handle, attempt, contact, wait_for_one, wait_for_one_lem}

-- What the call of the configuration comes to.
abbrev pub config_answer : Transport → XmlRpcClient → Rpc
config_answer send client = send (codes "one.system.config") (string client.auth ∷ [])

-- An array that begins with true and a string.
abbrev pub Confirms : Rpc → Type 0
Confirms (succeeded (array (cons (boolean true) (cons (string t) vs)))) = Unit
Confirms _ = ⊥

-- An array that has no first value, or a Boolean and no second one, is read behind its end.
abbrev pub IsShort : Rpc → Type 0
IsShort (succeeded (array nil)) = Unit
IsShort (succeeded (array (cons (boolean b) nil))) = Unit
IsShort _ = ⊥

-- Any other answer, or none: an exception of the call, one of the conversions, or false.
abbrev pub Fails : Rpc → Type 0
Fails r = (¬ Confirms r) × (¬ IsShort r)

abbrev Judged : Rpc → Outcome Bool → Type 0
Judged r o =
    ((o ≡ done true) × Confirms r)
    ⊎ ((o ≡ done false) × Fails r)
    ⊎ ((o ≡ faults) × (¬ Confirms r) × IsShort r)

abbrev neither : (¬ ⊥) × (¬ ⊥)
neither = (λ h. h, λ h. h)

judge : (client : XmlRpcClient) (r : Rpc) → Judged r (contact (λ method params. r) client)
unfolding contact attempt handle call call_async
judge client raised = inr (inl (refl, neither))
judge client unfinished = inr (inl (refl, neither))
judge client erred = inr (inl (refl, neither))
judge client (failed d) = inr (inl (refl, neither))
judge client (succeeded (int n)) = inr (inl (refl, neither))
judge client (succeeded (boolean c)) = inr (inl (refl, neither))
judge client (succeeded (string t)) = inr (inl (refl, neither))
judge client (succeeded (double t)) = inr (inl (refl, neither))
judge client (succeeded other) = inr (inl (refl, neither))
judge client (succeeded (array nil)) = inr (inr (refl, (λ h. h), tt))
judge client (succeeded (array (cons (int n) vs))) = inr (inl (refl, neither))
judge client (succeeded (array (cons (string t) vs))) = inr (inl (refl, neither))
judge client (succeeded (array (cons (double t) vs))) = inr (inl (refl, neither))
judge client (succeeded (array (cons (array ws) vs))) = inr (inl (refl, neither))
judge client (succeeded (array (cons other vs))) = inr (inl (refl, neither))
judge client (succeeded (array (cons (boolean true) nil))) = inr (inr (refl, (λ h. h), tt))
judge client (succeeded (array (cons (boolean true) (cons (int n) vs)))) = inr (inl (refl, neither))
judge client (succeeded (array (cons (boolean true) (cons (boolean c) vs)))) =
    inr (inl (refl, neither))
judge client (succeeded (array (cons (boolean true) (cons (string t) vs)))) = inl (refl, tt)
judge client (succeeded (array (cons (boolean true) (cons (double t) vs)))) =
    inr (inl (refl, neither))
judge client (succeeded (array (cons (boolean true) (cons (array ws) vs)))) =
    inr (inl (refl, neither))
judge client (succeeded (array (cons (boolean true) (cons other vs)))) = inr (inl (refl, neither))
judge client (succeeded (array (cons (boolean false) nil))) = inr (inr (refl, (λ h. h), tt))
judge client (succeeded (array (cons (boolean false) (cons (int n) vs)))) =
    inr (inl (refl, neither))
judge client (succeeded (array (cons (boolean false) (cons (boolean c) vs)))) =
    inr (inl (refl, neither))
judge client (succeeded (array (cons (boolean false) (cons (string t) vs)))) =
    inr (inl (refl, neither))
judge client (succeeded (array (cons (boolean false) (cons (double t) vs)))) =
    inr (inl (refl, neither))
judge client (succeeded (array (cons (boolean false) (cons (array ws) vs)))) =
    inr (inl (refl, neither))
judge client (succeeded (array (cons (boolean false) (cons other vs)))) = inr (inl (refl, neither))

judged :
    (send : Transport) (client : XmlRpcClient)
    → Judged (config_answer send client) (contact send client)
unfolding contact attempt handle call call_async
judged send client = judge client (config_answer send client)

answers_true :
    (send : Transport) (client : XmlRpcClient)
    → (contact send client ≡ done true) ↔ Confirms (config_answer send client)
answers_true send client = elim (judged send client) [
  | inl (e, c) ↦ (λ h. c, λ h. e)
  | inr (inl (e, c)) ↦ (λ h. cc, λ h. absurd (c.0 h))
  | inr (inr (e, c, s)) ↦ (λ h. cc, λ h. absurd (c h))
]

answers_false :
    (send : Transport) (client : XmlRpcClient)
    → (contact send client ≡ done false) ↔ Fails (config_answer send client)
answers_false send client = elim (judged send client) [
  | inl (e, c) ↦ (λ h. cc, λ h. absurd (h.0 c))
  | inr (inl (e, c)) ↦ (λ h. c, λ h. e)
  | inr (inr (e, c, s)) ↦ (λ h. cc, λ h. absurd (h.1 s))
]

-- The loop is left after k failed attempts exactly if the answer to the next call of the configuration
-- is an array that begins with true and a string, and the calls before fail: they throw, or their answer
-- is no array, or has no Boolean first or no string second, or says false, and is not so short that it is
-- read behind its end; and the fuel is more than k, so fuel that is more than the number of failures is
-- enough.
pub wait_for_one_iff :
    (fuel : ℕ) (send : ℕ → Transport) (client : XmlRpcClient) (k : ℕ)
    → (wait_for_one fuel send client ≡ done (some k)) ↔ (
        (k < fuel)
        × Confirms (config_answer (send k) client)
        × ((j : ℕ) → j < k → Fails (config_answer (send j) client)))
wait_for_one_iff fuel send client k =
    let (forth, back) = wait_for_one_lem fuel send client k in
    (
      λ e.
          let (below, found, before) = forth e in
          (
            below,
            (answers_true (send k) client).0 found,
            λ j lower. (answers_false (send j) client).0 (before j lower),
          ),
      λ h. back (
        h.0,
        (answers_true (send k) client).1 h.1,
        λ j lower. (answers_false (send j) client).1 (h.2 j lower),
      ),
    )
