-- ===== src/Terminator.antt =====
-- src/terminator/Terminator.cc and include/Terminator.h: the calls that end virtual machines which
-- run, or wait, for too long.
pub mod Collect
pub mod Running
pub mod Pending
pub mod Locking
pub mod Loop
mod Examples
use one_fass.Base.{
  ℕ, zero, suc, ◌+◌, ℤ, pos, negsuc, ◌-ℤ◌, ◌+ℤ◌, ltb_ℤ, ◌==ℤ◌, Bool, true, false, ◌&&◌, ◌||◌,
  Option, none, some, List, [], ◌∷◌, ◌++◌, if◌then◌else◌,
}
use one_fass.Text.{Text, codes, eq_text}
use one_fass.Outcome.{Outcome, done, throws, blocks, ◌>>=◌, or_throw}
use one_fass.StdMap.{Map}
use one_fass.Floating.{Floating}
use one_fass.Xml.{LibXml}
use one_fass.Xml.VmObject.{VmObject}
use one_fass.Client.{Value, int, string, Transport, XmlRpcClient}
use one_fass.VmPool.{Pool, set_up, running_search, pending_search}

-- A call of OpenNebula that the terminator makes: `one.vm.recover` with operation 3, which deletes the
-- VM, or `one.vm.action`. What it comes to is logged and makes no other difference.
pub data Call : Type 0 where
  terminate : ℤ → Call
  operate : Text → ℤ → Call

abbrev pub call_method : Call → Text
call_method (terminate oid) = codes "one.vm.recover"
call_method (operate action oid) = codes "one.vm.action"

abbrev pub call_params : Call → List Value
call_params (terminate oid) = int oid ∷ int (pos 3) ∷ []
call_params (operate action oid) = string action ∷ int oid ∷ []

abbrev pub is_operation : Text → Bool
is_operation action =
    eq_text action (codes "suspend")
    || (eq_text action (codes "poweroff") || eq_text action (codes "reboot"))

-- The three branches of `kill_running`: the last one logs that the action is not supported.
decide_running : Text → ℤ → ℤ → ℤ → ℤ → List Call
decide_running action ttl life static_vm oid =
    if ltb_ℤ ttl life && (static_vm ==ℤ pos 0 && eq_text action (codes "kill"))
    then terminate oid ∷ []
    else if ltb_ℤ ttl life && (static_vm ==ℤ pos 0 && is_operation action)
    then operate action oid ∷ []
    else []

decide_pending : ℤ → ℤ → ℤ → ℤ → List Call
decide_pending max_wait wait static_vm oid =
    if ltb_ℤ max_wait wait && static_vm ==ℤ pos 0 then terminate oid ∷ [] else []

module _ (f : Floating) (x : LibXml) where
  open f use {F, f_add, f_of_int}

  -- The state that the methods share. The mutex does not allow a second lock by its owner.
  pub record Terminator : Type 0 where
    pub max_wait : ℤ
    pub action : Text
    pub client : XmlRpcClient
    pub objects : Pool f x
    pub locked : Bool

  pub lock : Terminator → Outcome Terminator
  lock t = if t.locked then blocks else done (record t { locked = true })

  pub unlock : Terminator → Terminator
  unlock t = record t { locked = false }

  -- The loop of `kill_running`; `now i` is the clock in its round i. The requirements are added up for
  -- every VM, also for those that are passed over.
  running_loop : Text → ℤ → (ℕ → ℤ) → ℕ → Pool f x → F → ℤ → List Call × F × ℤ
  unfolding decide_running
  running_loop action ttl now i [] cpu memory = ([], cpu, memory)
  running_loop action ttl now i ((key, vm) ∷ vms) cpu memory =
      let (calls, cpu', memory') =
        running_loop action ttl now (suc i) vms (f_add cpu vm.cpu) (memory +ℤ vm.memory) in
      let here : List Call =
        if vm.start ==ℤ pos 0
        then []
        else decide_running action ttl (now i -ℤ vm.start) vm.static_vm vm.oid in
      (here ++ calls, cpu', memory')

  pending_loop : ℤ → (ℕ → ℤ) → ℕ → Pool f x → List Call
  unfolding decide_pending
  pending_loop max_wait now i [] = []
  pending_loop max_wait now i ((key, vm) ∷ vms) =
      decide_pending max_wait (now i -ℤ vm.birth) vm.static_vm vm.oid
      ++ pending_loop max_wait now (suc i) vms

  -- What a method leaves and returns.
  pub record Killed : Type 0 where
    pub after : Terminator
    pub calls : List Call
    pub rc : ℤ
    pub cpu : F
    pub memory : ℤ

  -- What `kill_running` does, under the lock, with the pool that it retrieved: the early return keeps
  -- the lock.
  pub finish_running : (ℕ → ℤ) → ℤ → F → ℤ → Terminator → Pool f x × ℤ → Killed
  unfolding running_loop unlock
  finish_running now ttl cpu memory t (objects, rc) =
      let (calls, cpu', memory') = running_loop t.action ttl now 0 objects cpu memory in
      let killed : Killed = record {
        after = unlock (record t { objects = objects });
        calls = calls;
        rc = pos 0;
        cpu = cpu';
        memory = memory';
      } in
      let refused : Killed = record {
        after = record t { objects = objects };
        calls = [];
        rc = rc;
        cpu = cpu;
        memory = memory;
      } in
      if rc ==ℤ pos 0 then killed else refused

  pub kill_running : Transport → (ℕ → ℤ) → ℤ → ℤ → F → ℤ → Terminator → Outcome Killed
  unfolding finish_running lock
  kill_running send now uid ttl cpu memory t = do
    owned ← lock t
    answer ← set_up f x send owned.client (running_search uid)
    done (finish_running now ttl cpu memory owned answer)

  -- So does that of `kill_pending`.
  pub finish_pending : (ℕ → ℤ) → Terminator → Pool f x × ℤ → Terminator × List Call × ℤ
  unfolding pending_loop unlock
  finish_pending now t (objects, rc) =
      if rc ==ℤ pos 0
      then (unlock (record t { objects = objects }), pending_loop t.max_wait now 0 objects, pos 0)
      else (record t { objects = objects }, [], rc)

  unfoldable pub kill_pending :
      Transport → (ℕ → ℤ) → ℤ → Terminator → Outcome (Terminator × List Call × ℤ)
  unfolding finish_pending lock
  kill_pending send now uid t = do
    owned ← lock t
    answer ← set_up f x send owned.client (pending_search uid)
    done (finish_pending now owned answer)
