-- ===== src/Terminator/Pending.antt =====
-- Which calls `kill_pending` makes.
use one_fass.Base.{
  some, ap, ◌++◌, ◌∷◌, inl, inr, suc, refl, get_elem?, [], Bool-cases, List, ℕ, ℤ, pos, ◌-ℤ◌, ◌<ℤ◌,
  ◌==ℤ◌, true, ◌≡◌, ◌↔◌, arith, Among,
}
use one_fass.Floating.{Floating}
use one_fass.Xml.{LibXml}
use one_fass.Xml.VmObject.{VmObject}
use one_fass.Terminator.Collect.{collect_iff_zero, collect}
use one_fass.Outcome.{done, >>=-eq-done, done-injective}
use one_fass.Client.{Transport}
use one_fass.VmPool.{Pool, set_up, pending_search}
use one_fass.VmPool.Objects.{set_up-IsAnswer, IsAnswer}
use one_fass.Terminator.{
  Terminator, Call, terminate, kill_pending, finish_pending, pending_loop, decide_pending,
}

-- A VM that `kill_pending` ends at time `now`.
pub record IsStale {F Doc : Type 0} (max_wait now : ℤ) (vm : VmObject F Doc) : Type 0 where
  pub expired : max_wait <ℤ now -ℤ vm.birth
  pub dynamic : (vm.static_vm ==ℤ pos 0) ≡ true

decide_pending_iff :
    (max_wait wait static_vm oid : ℤ) (c : Call)
    → Among c (decide_pending max_wait wait static_vm oid)
      ↔ ((max_wait <ℤ wait) × ((static_vm ==ℤ pos 0) ≡ true) × (c ≡ terminate oid))
unfolding decide_pending
decide_pending_iff max_wait wait static_vm oid c = (λ m. ground arith, λ h. ground arith)

module _ (f : Floating) (x : LibXml) where
  -- The VM in round i of the loop is stale at the time of that round, and the call ends it.
  abbrev pub Due : ℤ → (ℕ → ℤ) → Pool f x → Call → Type 0
  Due max_wait now vms c =
      (i : ℕ) × (e : ℤ × VmObject f.F x.Doc) × (get_elem? vms i ≡ some e)
      × IsStale max_wait (now i) e.1
      × (c ≡ terminate e.1.oid)

  abbrev stale_calls : ℤ → ℤ → VmObject f.F x.Doc → List Call
  stale_calls max_wait now vm = decide_pending max_wait (now -ℤ vm.birth) vm.static_vm vm.oid

  pending_loop-collect :
      (max_wait : ℤ) (now : ℕ → ℤ) (k : ℕ) (vms : Pool f x)
      → pending_loop f x max_wait now k vms ≡ collect (λ n e. stale_calls max_wait n e.1) now k vms
  unfolding pending_loop
  pending_loop-collect max_wait now k [] = refl
  pending_loop-collect max_wait now k ((key, vm) ∷ vms) =
      ap (λ l. stale_calls max_wait (now k) vm ++ l) (pending_loop-collect max_wait now (suc k) vms)

  finish_pending-objects :
      (now : ℕ → ℤ) (t : Terminator f x) (answer : Pool f x × ℤ)
      → (finish_pending f x now t answer).0.objects ≡ answer.0
  unfolding finish_pending
  finish_pending-objects now t (objects, rc) = elim (Bool-cases (rc ==ℤ pos 0)) [
    | inl ok ↦ rw ok refl
    | inr failed ↦ rw failed refl
  ]

  finish_pending_iff :
      (now : ℕ → ℤ) (t : Terminator f x) (answer : Pool f x × ℤ)
      → IsAnswer f x answer
      → (c : Call)
      → let r = finish_pending f x now t answer in Among c r.1 ↔ Due t.max_wait now answer.0 c
  unfolding finish_pending
  finish_pending_iff now t (objects, rc) (v, inl ok) c = rw ok (
      rw (pending_loop-collect t.max_wait now 0 objects) (
        λ m.
            let (i, e, at, l) =
              (collect_iff_zero (λ n e. stale_calls t.max_wait n e.1) now objects c).0 m in
            let (late, dynamic, known) =
              (decide_pending_iff t.max_wait (now i -ℤ e.1.birth) e.1.static_vm e.1.oid c).0 l in
            (i, e, at, record { expired = late; dynamic = dynamic }, known),
        λ h.
            let (i, e, at, stale, known) = h in
            (collect_iff_zero (λ n e. stale_calls t.max_wait n e.1) now objects c).1 (
              i,
              e,
              at,
              (decide_pending_iff t.max_wait (now i -ℤ e.1.birth) e.1.static_vm e.1.oid c).1
                  (stale.expired, stale.dynamic, known),
            ),
      ))
  finish_pending_iff now t (objects, rc) (v, inr (failed, none_left)) c =
      rw failed (λ m. absurd m, λ h. let gone = rw none_left at (h.2) in cc)

  -- Whatever `kill_pending` returns, the pool that it leaves is the answer of OpenNebula to the search
  -- for the pending VMs, and it ended exactly the VMs of that answer that have waited longer than the
  -- maximum at their round's clock and are not static.
  pub kill_pending_iff :
      (send : Transport) (now : ℕ → ℤ) (uid : ℤ) (t : Terminator f x)
      {r : Terminator f x × List Call × ℤ}
      → kill_pending f x send now uid t ≡ done r
      → (answer : Pool f x × ℤ) × (set_up f x send t.client (pending_search uid) ≡ done answer)
        × (r.0.objects ≡ answer.0)
        × ((c : Call) → Among c r.1 ↔ Due t.max_wait now answer.0 c)
  unfolding kill_pending
  kill_pending_iff send now uid t e = elim (Bool-cases t.locked) [
    | inl held ↦ let stuck = rw held at e in cc
    | inr free ↦
        let (answer, s, done_r) =
          >>=-eq-done (set_up f x send t.client (pending_search uid)) _ (rw free at e) in
        let owned = record t { locked = true } in
        let same = done-injective _ _ done_r in
        let kept = finish_pending-objects now owned answer in
        (
          answer,
          s,
          rw (← same) kept,
          λ c. rw (← same) (
              finish_pending_iff now owned answer
                (set_up-IsAnswer f x send t.client (pending_search uid) s) c),
        )
  ]
