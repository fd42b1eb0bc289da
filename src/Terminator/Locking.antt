-- ===== src/Terminator/Locking.antt =====
-- The mutex of the terminator: who gives it back, and what a failed retrieval leads to.
use one_fass.Base.{
  All, length, ◌*◌, ◌++◌, ◌++◌, [], map, arith, ◌+◌, ℕ, suc, ℤ, pos, ◌==ℤ◌, true, false, not, List,
  ◌∷◌, ◌≡◌, refl, Bool-cases, inl, inr,
}
use one_fass.Text.{Text}
use one_fass.Outcome.{done, blocks}
use one_fass.Floating.{Floating}
use one_fass.Boost.{Boost}
use one_fass.Xml.{LibXml}
use one_fass.Client.{Transport}
use one_fass.VmPool.{Pool}
use one_fass.Terminator.{
  running_search, set_up, Call, Terminator, Killed, kill_running, finish_running,
}
use one_fass.Terminator.Running.{kill_running_inv}
use one_fass.Terminator.Loop.{
  Event, usage_records, called, wrote, serve_user, parse_user, serve_users,
}

module _ (f : Floating) (x : LibXml) where
  finish_running-locked :
      (now : ℕ → ℤ) (ttl : ℤ) (cpu : f.F) (memory : ℤ) (t : Terminator f x) (answer : Pool f x × ℤ)
      → t.locked ≡ true
      → let r = finish_running f x now ttl cpu memory t answer in
        r.after.locked ≡ not (r.rc ==ℤ pos 0)
  unfolding finish_running
  finish_running-locked now ttl cpu memory t (objects, rc) h = elim (Bool-cases (rc ==ℤ pos 0)) [
    | inl ok ↦ rw ok
    | inr failed ↦ rw failed (rw failed h)
  ]

  -- A call of `kill_running` that finds the mutex taken by its own thread never returns. One that
  -- returns has given the mutex back exactly when its return code is 0: the early return for a
  -- pool that cannot be retrieved keeps it.
  pub kill_running-locked :
      (send : Transport) (now : ℕ → ℤ) (uid ttl : ℤ) (cpu : f.F) (memory : ℤ) (t : Terminator f x)
      → (t.locked ≡ true → kill_running f x send now uid ttl cpu memory t ≡ blocks)
        × ((r : Killed f x)
            → kill_running f x send now uid ttl cpu memory t ≡ done r
            → r.after.locked ≡ not (r.rc ==ℤ pos 0))
  unfolding kill_running
  kill_running-locked send now uid ttl cpu memory t = (
    λ h. rw h,
    λ r e.
        let (answer, s, same) = kill_running_inv f x send now uid ttl cpu memory t e in
        rw (← same)
          (finish_running-locked now ttl cpu memory (record t { locked = true }) answer refl),
  )

  module _ (b : Boost f.F) where
    -- If the pool of one user cannot be retrieved, so that `kill_running` returns another code
    -- than 0, the round never comes to an end when another entry that can be read follows: the
    -- thread waits for the mutex that it holds itself.
    pub serve_users-blocks :
        (send : ℕ → Transport) (now : ℕ → ℕ → ℤ) (timestamp : ℤ) (k : ℕ) (u v : Text)
        (us : List Text) (t : Terminator f x) (p q : ℤ × ℤ) {r : Killed f x}
        → parse_user b u ≡ done p
        → kill_running f x (send k) (now k) p.0 p.1 f.f_zero (pos 0) t ≡ done r
        → (r.rc ==ℤ pos 0) ≡ false
        → parse_user b v ≡ done q
        → serve_users f x b send now timestamp k (u ∷ v ∷ us) t ≡ blocks
    unfolding serve_users
    serve_users-blocks send now timestamp k u v us t p q {r} eu er failed ev =
        rw (eu, er, ev)
          (rw (
            (kill_running-locked (send (suc k)) (now (suc k)) q.0 q.1 f.f_zero (pos 0) r.after).0
              held))
      where
        held : r.after.locked ≡ true
        held =
            rw failed at ((kill_running-locked (send k) (now k) p.0 p.1 f.f_zero (pos 0) t).1 r er)

    -- Every call for the pool returns one.
    abbrev pub Answers : (ℕ → Transport) → Terminator f x → Type 0
    Answers send t =
        (k : ℕ) (uid : ℤ)
        → (objects : Pool f x) × (set_up f x (send k) t.client (running_search uid)
            ≡ done (objects, pos 0))

    abbrev pub Readable : Text → Type 0
    Readable entry = (p : ℤ × ℤ) × (parse_user b entry ≡ done p)

    abbrev pub database_writes : List Event → ℕ
    database_writes [] = 0
    database_writes (called c ∷ es) = database_writes es
    database_writes (wrote key value tag timestamp ∷ es) = suc (database_writes es)

    database_writes-append :
        (es fs : List Event) → database_writes (es ++ fs) ≡ database_writes es + database_writes fs
    database_writes-append [] fs = omega arith
    database_writes-append (called c ∷ es) fs = database_writes-append es fs
    database_writes-append (wrote key value tag timestamp ∷ es) fs =
        omega (arith, database_writes-append es fs)

    database_writes-called : (cs : List Call) → database_writes (map called cs) ≡ 0
    database_writes-called [] = refl
    database_writes-called (c ∷ cs) = database_writes-called cs

    serve_user_free :
        (send : Transport) (now : ℕ → ℤ) (timestamp : ℤ) (entry : Text) (t : Terminator f x)
        (p : ℤ × ℤ) (objects : Pool f x)
        → t.locked ≡ false
        → parse_user b entry ≡ done p
        → set_up f x send t.client (running_search p.0) ≡ done (objects, pos 0)
        → (events : List Event) × (serve_user f x b send now timestamp entry t
            ≡ done (record t { objects = objects; locked = false }, events))
          × (database_writes events ≡ 2)
    unfolding serve_user kill_running finish_running usage_records
    serve_user_free send now timestamp entry t p objects free parsed answered = (
      map called r.calls ++ usage_records f x b timestamp p.0 r,
      rw (parsed, free, answered),
      omega (
        arith,
        database_writes-append (map called r.calls) (usage_records f x b timestamp p.0 r),
        database_writes-called r.calls,
      ),
    )
      where
        r : Killed f x
        r =
            finish_running f x now p.1 f.f_zero (pos 0) (record t { locked = true })
              (objects, pos 0)

    -- If every entry can be read and every pool is retrieved, a round that begins with the mutex free
    -- comes to its end with the mutex free, and has written two records for each user.
    pub serve_users-completes :
        (send : ℕ → Transport) (now : ℕ → ℕ → ℤ) (timestamp : ℤ) (k : ℕ) (entries : List Text)
        (t : Terminator f x)
        → t.locked ≡ false
        → Answers send t
        → All Readable entries
        → (last : Terminator f x) × (events : List Event) × (serve_users f x b send now timestamp k
              entries t
            ≡ done (last, events))
          × (last.locked ≡ false)
          × (database_writes events ≡ 2 * length entries)
    unfolding serve_users
    serve_users-completes send now timestamp k [] t free answers readable =
        (t, [], refl, free, omega arith)
    serve_users-completes send now timestamp k (entry ∷ entries) t free answers (read, readable) =
        let (p, parsed) = read in
        let (objects, answered) = answers k p.0 in
        let (events, first, two) =
          serve_user_free (send k) (now k) timestamp entry t p objects free parsed answered in
        let (last, later, rest, freed, count) =
          serve_users-completes send now timestamp (suc k) entries
            (record t { objects = objects; locked = false }) refl answers readable in
        (
          last,
          events ++ later,
          rw (first, rest),
          freed,
          omega (arith, database_writes-append events later),
        )
