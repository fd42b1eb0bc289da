-- ===== src/Manager/Stopping.antt =====
-- What happens to a loop of a manager once `finalize` has been called.
use one_fass.Base.{◌&&◌, not, false, Bool, ℕ, suc, ◌+◌, ◌≤◌, true, ◌≡◌, refl, arith}
use one_fass.Manager.{
  Phase, top, holding, waiting, running, ended, Loop, Step, enter, leave, sleep, wake, go, round,
  finalize, Steps, here, next,
}

-- The round that the thread may still make.
abbrev pending : Phase → ℕ
pending top = 0
pending (holding wait) = 1
pending waiting = 1
pending running = 1
pending ended = 0

Step-pending :
    {l m : Loop}
    → Step l m
    → l.stop_manager ≡ true
    → (m.stop_manager ≡ true) × (m.rounds + pending m.phase ≤ l.rounds + pending l.phase)
Step-pending (enter l p s) h = cc (s, h)
Step-pending (leave l p s) h = (h, omega arith)
Step-pending (sleep l p s) h = (h, rw p (omega arith))
Step-pending (wake l timed_out p) h = (h, rw p (omega arith))
Step-pending (go l wait p t) h = (h, rw p (omega arith))
Step-pending (round l p) h = (h, rw p (omega arith))
Step-pending (finalize l f) h = (refl, omega arith)

Steps-pending :
    {l m : Loop}
    → l.stop_manager ≡ true
    → Steps l m
    → (m.stop_manager ≡ true) × (m.rounds + pending m.phase ≤ l.rounds + pending l.phase)
Steps-pending h here = (h, omega arith)
Steps-pending h (next r s) =
    let (stopped, bound) = Steps-pending h r in
    let (still, less) = Step-pending s stopped in (still, omega (arith, bound, less))

pending_le : (p : Phase) → pending p ≤ 1
pending_le top = omega arith
pending_le (holding wait) = omega arith
pending_le waiting = omega arith
pending_le running = omega arith
pending_le ended = omega arith

-- Once `finalize` has been called the thread makes one more round at most, whatever wakes it.
pub Steps-rounds : {l m : Loop} → l.stop_manager ≡ true → Steps l m → m.rounds ≤ suc l.rounds
Steps-rounds {l} h r = omega (arith, (Steps-pending h r).1, pending_le l.phase)

Steps-append : {l m n : Loop} → Steps l m → Steps m n → Steps l n
Steps-append r here = r
Steps-append r (next q s) = next (Steps-append r q) s

-- The loop can come to its end.
abbrev pub CanEnd : Loop → Type 0
CanEnd l = (m : Loop) × Steps l m × (m.phase ≡ ended)

CanEnd-Step : {l m : Loop} → Step l m → CanEnd m → CanEnd l
CanEnd-Step s (n, r, e) = (n, Steps-append (next here s) r, e)

no_wait : (wait stop : Bool) → stop ≡ true → (wait && not stop) ≡ false
no_wait wait stop h = ground arith

top-CanEnd : (l : Loop) → l.stop_manager ≡ true → l.phase ≡ top → CanEnd l
top-CanEnd l h p = (record l { phase = ended }, next here (leave l p h), refl)

running-CanEnd : (l : Loop) → l.stop_manager ≡ true → l.phase ≡ running → CanEnd l
running-CanEnd l h p =
    CanEnd-Step (round l p) (top-CanEnd (record l { phase = top; rounds = suc l.rounds }) h refl)

holding-CanEnd :
    (l : Loop) (wait : Bool) → l.stop_manager ≡ true → l.phase ≡ holding wait → CanEnd l
holding-CanEnd l wait h p =
    CanEnd-Step (go l wait p (no_wait wait l.stop_manager h))
      (running-CanEnd (record l { phase = running }) h refl)

waiting-CanEnd : (l : Loop) → l.stop_manager ≡ true → l.phase ≡ waiting → CanEnd l
waiting-CanEnd l h p =
    CanEnd-Step (wake l true p) (holding-CanEnd (record l { phase = holding false }) false h refl)

phase-CanEnd : (l : Loop) (p : Phase) → l.stop_manager ≡ true → l.phase ≡ p → CanEnd l
phase-CanEnd l top h e = top-CanEnd l h e
phase-CanEnd l (holding wait) h e = holding-CanEnd l wait h e
phase-CanEnd l waiting h e = waiting-CanEnd l h e
phase-CanEnd l running h e = running-CanEnd l h e
phase-CanEnd l ended h e = (l, here, e)

-- Wherever the thread is once `finalize` has been called, it can go on to its end.
pub stopped-CanEnd : (l : Loop) → l.stop_manager ≡ true → CanEnd l
stopped-CanEnd l h = phase-CanEnd l l.phase h refl
