-- ===== src/Terminator/Running.antt =====
-- Which calls `kill_running` makes.
use one_fass.Base.{
  ◌++◌, ap, ◌+ℤ◌, ◌∷◌, inl, inr, suc, refl, get_elem?, [], Bool-cases, List, ℕ, ℤ, pos, ◌-ℤ◌, ◌<ℤ◌,
  ◌==ℤ◌, true, false, Option, none, some, ◌≡◌, ◌↔◌, arith, Among, if◌then◌else◌,
}
use one_fass.Text.{Text, codes, eq_text}
use one_fass.Xml.VmObject.{VmObject}
use one_fass.Terminator.Collect.{collect_iff_zero, collect}
use one_fass.Outcome.{done, >>=-eq-done, done-injective}
use one_fass.Client.{Transport}
use one_fass.VmPool.Objects.{set_up-IsAnswer, IsAnswer}
use one_fass.Terminator.{
  finish_running, running_search, set_up, Terminator, Killed, kill_running, Pool, running_loop,
  LibXml, Floating, Call, terminate, operate, is_operation, decide_running,
}

-- The configured action as a call, if it is one of the four that are known.
abbrev pub command : Text → ℤ → Option Call
command action oid =
    if eq_text action (codes "kill")
    then some (terminate oid)
    else if is_operation action
    then some (operate action oid)
    else none

-- A VM that `kill_running` ends at time `now`.
pub record IsOverdue {F Doc : Type 0} (ttl now : ℤ) (vm : VmObject F Doc) : Type 0 where
  pub started : (vm.start ==ℤ pos 0) ≡ false
  pub expired : ttl <ℤ now -ℤ vm.start
  pub dynamic : (vm.static_vm ==ℤ pos 0) ≡ true

decide_running_iff :
    (action : Text) (ttl life static_vm oid : ℤ) (c : Call)
    → Among c (decide_running action ttl life static_vm oid)
      ↔ ((ttl <ℤ life) × ((static_vm ==ℤ pos 0) ≡ true) × (command action oid ≡ some c))
unfolding decide_running
decide_running_iff action ttl life static_vm oid c = (λ m. ground arith, λ h. ground arith)

module _ (f : Floating) (x : LibXml) where
  -- The VM in round i of the loop is overdue at the time of that round, and the call is the command
  -- for it.
  abbrev pub Justified : Text → ℤ → (ℕ → ℤ) → Pool f x → Call → Type 0
  Justified action ttl now vms c =
      (i : ℕ) × (e : ℤ × VmObject f.F x.Doc) × (get_elem? vms i ≡ some e)
      × IsOverdue ttl (now i) e.1
      × (command action e.1.oid ≡ some c)

  abbrev here : Text → ℤ → ℤ → VmObject f.F x.Doc → List Call
  here action ttl now vm =
      if vm.start ==ℤ pos 0
      then []
      else decide_running action ttl (now -ℤ vm.start) vm.static_vm vm.oid

  here_iff :
      (action : Text) (ttl now : ℤ) (vm : VmObject f.F x.Doc) (c : Call)
      → Among c (here action ttl now vm) ↔ (IsOverdue ttl now vm × (command action vm.oid ≡ some c))
  here_iff action ttl now vm c = elim (Bool-cases (vm.start ==ℤ pos 0)) [
    | inl idle ↦ rw idle (λ m. absurd m, λ h. cc (idle, h.0.started))
    | inr busy ↦
        let (forth, back) = decide_running_iff action ttl (now -ℤ vm.start) vm.static_vm vm.oid c in
        rw busy (
          λ m.
              let (late, dynamic, known) = forth m in
              (record { started = busy; expired = late; dynamic = dynamic }, known),
          λ h. back (h.0.expired, h.0.dynamic, h.1),
        )
  ]

  running_loop-collect :
      (action : Text) (ttl : ℤ) (now : ℕ → ℤ) (k : ℕ) (vms : Pool f x) (cpu : f.F) (memory : ℤ)
      → (running_loop f x action ttl now k vms cpu memory).0
        ≡ collect (λ n e. here action ttl n e.1) now k vms
  unfolding running_loop
  running_loop-collect action ttl now k [] cpu memory = refl
  running_loop-collect action ttl now k ((key, vm) ∷ vms) cpu memory =
      ap (λ l. here action ttl (now k) vm ++ l)
        (running_loop-collect action ttl now (suc k) vms (f.f_add cpu vm.cpu) (memory +ℤ vm.memory))

  pub kill_running_inv :
      (send : Transport) (now : ℕ → ℤ) (uid ttl : ℤ) (cpu : f.F) (memory : ℤ) (t : Terminator f x)
      {r : Killed f x}
      → kill_running f x send now uid ttl cpu memory t ≡ done r
      → (answer : Pool f x × ℤ) × (set_up f x send t.client (running_search uid) ≡ done answer)
        × (finish_running f x now ttl cpu memory (record t { locked = true }) answer ≡ r)
  unfolding kill_running
  kill_running_inv send now uid ttl cpu memory t e = elim (Bool-cases t.locked) [
    | inl held ↦ let stuck = rw held at e in cc
    | inr free ↦
        let (answer, s, done_r) =
          >>=-eq-done (set_up f x send t.client (running_search uid)) _ (rw free at e) in
        (answer, s, done-injective _ _ done_r)
  ]

  finish_running-objects :
      (now : ℕ → ℤ) (ttl : ℤ) (cpu : f.F) (memory : ℤ) (t : Terminator f x) (answer : Pool f x × ℤ)
      → (finish_running f x now ttl cpu memory t answer).after.objects ≡ answer.0
  unfolding finish_running
  finish_running-objects now ttl cpu memory t (objects, rc) = elim (Bool-cases (rc ==ℤ pos 0)) [
    | inl ok ↦ rw ok refl
    | inr failed ↦ rw failed refl
  ]

  finish_running_iff :
      (now : ℕ → ℤ) (ttl : ℤ) (cpu : f.F) (memory : ℤ) (t : Terminator f x) (answer : Pool f x × ℤ)
      → IsAnswer f x answer
      → (c : Call)
      → let r = finish_running f x now ttl cpu memory t answer in
        Among c r.calls ↔ Justified t.action ttl now answer.0 c
  unfolding finish_running
  finish_running_iff now ttl cpu memory t (objects, rc) (v, inl ok) c = rw ok (
      rw (running_loop-collect t.action ttl now 0 objects cpu memory) (
        λ m.
            let (i, e, at, l) =
              (collect_iff_zero (λ n e. here t.action ttl n e.1) now objects c).0 m in
            let (late, known) = (here_iff t.action ttl (now i) e.1 c).0 l in
            (i, e, at, late, known),
        λ h.
            let (i, e, at, late, known) = h in
            (collect_iff_zero (λ n e. here t.action ttl n e.1) now objects c).1
              (i, e, at, (here_iff t.action ttl (now i) e.1 c).1 (late, known)),
      ))
  finish_running_iff now ttl cpu memory t (objects, rc) (v, inr (failed, none_left)) c =
      rw failed (λ m. absurd m, λ h. let gone = rw none_left at (h.2) in cc)

  -- Whatever `kill_running` returns, the pool that it leaves is the answer of OpenNebula to the search
  -- for the running VMs of the user, and it made a call exactly for the VMs of that answer that have
  -- started, have lived longer than the time to live at their round's clock, and are not static, and
  -- the call is the configured action, if that is kill, suspend, poweroff or reboot.
  pub kill_running_iff :
      (send : Transport) (now : ℕ → ℤ) (uid ttl : ℤ) (cpu : f.F) (memory : ℤ) (t : Terminator f x)
      {r : Killed f x}
      → kill_running f x send now uid ttl cpu memory t ≡ done r
      → (answer : Pool f x × ℤ) × (set_up f x send t.client (running_search uid) ≡ done answer)
        × (r.after.objects ≡ answer.0)
        × ((c : Call) → Among c r.calls ↔ Justified t.action ttl now answer.0 c)
  kill_running_iff send now uid ttl cpu memory t e =
      let (answer, s, same) = kill_running_inv send now uid ttl cpu memory t e in
      let owned = record t { locked = true } in
      let kept = finish_running-objects now ttl cpu memory owned answer in
      (
        answer,
        s,
        rw (← same) kept,
        λ c. rw (← same) (
            finish_running_iff now ttl cpu memory owned answer
              (set_up-IsAnswer f x send t.client (running_search uid) s) c),
      )
