-- ===== src/Daemon/Contact.antt =====
-- The loop of `Fass::start` in src/fass/Fass.cc that waits for OpenNebula.
pub mod Answers
use one_fass.Base.{
  ◌++◌, ℕ, zero, suc, ◌<◌, sym, refl, ◌⊎◌, inl, inr, Bool, true, false, Option, none, some, [], ◌≡◌,
  ◌↔◌, arith,
}
use mathlib.Core.Option.{some-injective}
use one_fass.Text.{Text, codes}
use one_fass.Outcome.{Outcome, done-injective, done, throws, faults, blocks, ◌>>=◌, element}
use one_fass.Client.{Transport, XmlRpcClient, call, as_array, as_boolean, as_string}

-- `one_endpoint`, with the port and the path.
unfoldable pub rpc_endpoint : Text → Text → Text
rpc_endpoint one_endpoint one_port = one_endpoint ++ (codes ":" ++ (one_port ++ codes "/RPC2"))

attempt : Transport → XmlRpcClient → Outcome Bool
attempt send client = do
  result ← call send client (codes "one.system.config") []
  values ← as_array result
  first ← element 0 values
  success ← as_boolean first
  second ← element 1 values
  message ← as_string second
  done success

-- The handler of the loop: an exception is a failed attempt.
handle : Outcome Bool → Outcome Bool
handle (done success) = done success
handle throws = done false
handle faults = faults
handle blocks = blocks

unfoldable pub contact : Transport → XmlRpcClient → Outcome Bool
unfolding attempt handle
contact send client = handle (attempt send client)

counted : Outcome (Option ℕ) → Outcome (Option ℕ)
counted (done none) = done none
counted (done (some k)) = done (some (suc k))
counted throws = throws
counted faults = faults
counted blocks = blocks

-- Behind one attempt the loop is left, or goes on.
go_on : Outcome Bool → Outcome (Option ℕ) → Outcome (Option ℕ)
unfolding counted
go_on (done true) later = done (some 0)
go_on (done false) later = counted later
go_on throws later = throws
go_on faults later = faults
go_on blocks later = blocks

-- The number of failed attempts, each with the answers of its time, before the loop is left; `none` is
-- the end of the fuel.
unfoldable pub wait_for_one : ℕ → (ℕ → Transport) → XmlRpcClient → Outcome (Option ℕ)
unfolding go_on
wait_for_one zero send client = done none
wait_for_one (suc fuel) send client =
    go_on (contact (send 0) client) (wait_for_one fuel (λ k. send (suc k)) client)

counted-some :
    (o : Outcome (Option ℕ)) (k : ℕ)
    → counted o ≡ done (some k)
    → (j : ℕ) × (k ≡ suc j) × (o ≡ done (some j))
unfolding counted
counted-some (done none) k e = cc
counted-some (done (some j)) k e = (j, some-injective _ _ (done-injective _ _ (sym e)), refl)
counted-some throws k e = cc
counted-some faults k e = cc
counted-some blocks k e = cc

go_on-some :
    (o : Outcome Bool) (later : Outcome (Option ℕ)) (k : ℕ)
    → go_on o later ≡ done (some k)
    → ((o ≡ done true) × (k ≡ 0))
      ⊎ ((j : ℕ) × (k ≡ suc j) × (o ≡ done false) × (later ≡ done (some j)))
unfolding go_on
go_on-some (done true) later k e = inl (refl, some-injective _ _ (done-injective _ _ (sym e)))
go_on-some (done false) later k e =
    let (j, same, went) = counted-some later k e in inr (j, same, refl, went)
go_on-some throws later k e = cc
go_on-some faults later k e = cc
go_on-some blocks later k e = cc

failures :
    (send : ℕ → Transport) (client : XmlRpcClient) (k : ℕ)
    → contact (send 0) client ≡ done false
    → ((j : ℕ) → j < k → contact (send (suc j)) client ≡ done false)
    → (j : ℕ) → j < suc k
    → contact (send j) client ≡ done false
failures send client k failed before zero below = failed
failures send client k failed before (suc j) below = before j (ground arith)

left :
    (fuel : ℕ) (send : ℕ → Transport) (client : XmlRpcClient) (k : ℕ)
    → wait_for_one fuel send client ≡ done (some k)
    → (k < fuel)
      × (contact (send k) client ≡ done true)
      × ((j : ℕ) → j < k → contact (send j) client ≡ done false)
unfolding wait_for_one
left zero send client k e = cc
left (suc fuel) send client k e = elim (go_on-some (contact (send 0) client) _ k e) [
  | inl (now, same) ↦ rw same (ground arith, now, λ j below. ground arith)
  | inr (j, same, failed, went) ↦
      let (below, found, before) = left fuel (λ i. send (suc i)) client j went in
      rw same (ground arith, found, failures send client j failed before)
]

leaves :
    (fuel : ℕ) (send : ℕ → Transport) (client : XmlRpcClient) (k : ℕ)
    → k < fuel
    → contact (send k) client ≡ done true
    → ((j : ℕ) → j < k → contact (send j) client ≡ done false)
    → wait_for_one fuel send client ≡ done (some k)
unfolding wait_for_one go_on counted
leaves zero send client k below found before = ground arith
leaves (suc fuel) send client zero below found before = rw found refl
leaves (suc fuel) send client (suc k) below found before =
    rw
      (
        before 0 (ground arith),
        leaves fuel (λ i. send (suc i)) client k (ground arith) found
            (λ j lower. before (suc j) (ground arith)),
      )
      refl

-- The loop in terms of its attempts.
pub wait_for_one_lem :
    (fuel : ℕ) (send : ℕ → Transport) (client : XmlRpcClient) (k : ℕ)
    → (wait_for_one fuel send client ≡ done (some k)) ↔ (
        (k < fuel)
        × (contact (send k) client ≡ done true)
        × ((j : ℕ) → j < k → contact (send j) client ≡ done false))
unfolding wait_for_one
wait_for_one_lem fuel send client k =
    (left fuel send client k, λ h. leaves fuel send client k h.0 h.1 h.2)
