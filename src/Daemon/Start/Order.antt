-- ===== src/Daemon/Start/Order.antt =====
-- What `Fass::start` has made when it ends, at whichever stage.
use one_fass.Base.{◌++◌, negsuc, none, List, [], ◌∷◌, ◌≡◌, ◌≢◌, ◌⊎◌, inl, inr, refl}
use one_fass.Outcome.{Outcome, done, throws, faults, blocks}
use one_fass.Floating.{Floating}
use one_fass.Boost.{Boost}
use one_fass.Daemon.Start.{
  World, Started, pm_started, tm_started, rpcm_started, Fass, no_fass, no_holding,
}
use one_fass.Daemon.Start.Stages.{
  configure, read_shares, open_log, open_database, contact_one, build_pm, start_pm, build_tm,
  start_tm, build_rpcm, start_rpcm, next_stage, run_stages, start,
}
use one_fass.Daemon.Start.Steps.{
  HasShares, HasRpcm, served, Before, PmRuns, Both, configure-Before, read_shares-HasShares,
  open_log-HasShares, open_database-HasShares, contact_one-HasShares, build_pm-HasPm,
  start_pm-PmRuns, build_tm-Both, start_tm-Both, build_rpcm-Both, start_rpcm-Both,
}

module _ (f : Floating) (b : Boost f.F) (w : World) where
  -- The threads that run when the start has stopped short.
  abbrev pub Partly : Fass f.F → Type 0
  Partly s =
      (s.threads ≡ [])
      ⊎ ((s.threads ≡ pm_started ∷ []) × (s.tm ≡ none))
      ⊎ (s.threads ≡ pm_started ∷ tm_started ∷ [])

  abbrev pub Ended : Fass f.F × Outcome (Fass f.F) → Type 0
  Ended (s, e) =
      ((e ≡ done s)
        × Both f b w (pm_started ∷ tm_started ∷ rpcm_started ∷ []) (served f b w) s
        × HasRpcm f b w s
        × (w.net.fd ≢ negsuc 0))
      ⊎ (((u : Fass f.F) → e ≢ done u) × Partly s)

  stage-Ended :
      (rest : Fass f.F → Fass f.F × Outcome (Fass f.F)) (s : Fass f.F) (o : Outcome (Fass f.F))
      → Partly s
      → ((t : Fass f.F) → o ≡ done t → Ended (rest t))
      → Ended (next_stage f b w rest s o)
  unfolding next_stage
  stage-Ended rest s (done t) p h = h t refl
  stage-Ended rest s throws p h = inr (λ u e. cc, p)
  stage-Ended rest s faults p h = inr (λ u e. cc, p)
  stage-Ended rest s blocks p h = inr (λ u e. cc, p)

  run_cons :
      (stage : Fass f.F → Outcome (Fass f.F)) (rest : List (Fass f.F → Outcome (Fass f.F)))
      (s : Fass f.F)
      → Partly s
      → ((t : Fass f.F) → stage s ≡ done t → Ended (run_stages f b w rest t))
      → Ended (run_stages f b w (stage ∷ rest) s)
  unfolding run_stages
  run_cons stage rest s p h = stage-Ended (run_stages f b w rest) s (stage s) p h

  abbrev two : List Started
  two = pm_started ∷ tm_started ∷ []

  abbrev Stages : Type 0
  Stages = List (Fass f.F → Outcome (Fass f.F))

  abbrev last_stage : Stages
  last_stage = start_rpcm f b w ∷ []

  abbrev from_rpcm : Stages
  from_rpcm = build_rpcm f b w ∷ last_stage

  abbrev from_tm : Stages
  from_tm = build_tm f b w ∷ start_tm f b w ∷ from_rpcm

  abbrev from_pm : Stages
  from_pm = build_pm f b w ∷ start_pm f b w ∷ from_tm

  abbrev from_log : Stages
  from_log = open_log f b w ∷ open_database f b w ∷ contact_one f b w ∷ from_pm

  last-Ended :
      (s : Fass f.F)
      → Both f b w two no_holding s × HasRpcm f b w s
      → Ended (run_stages f b w last_stage s)
  unfolding run_stages
  last-Ended s h =
      run_cons (start_rpcm f b w) [] s (inr (inr h.0.4))
        (λ t e. let (both, made, fd) = start_rpcm-Both f b w s t h e in inl (refl, both, made, fd))

  rpcm-Ended : (s : Fass f.F) → Both f b w two no_holding s → Ended (run_stages f b w from_rpcm s)
  rpcm-Ended s h =
      run_cons (build_rpcm f b w) last_stage s (inr (inr h.4))
        (λ t e. last-Ended t (build_rpcm-Both f b w two no_holding s t h e))

  tm_made-Ended :
      (s : Fass f.F)
      → Both f b w (pm_started ∷ []) no_holding s
      → Ended (run_stages f b w (start_tm f b w ∷ from_rpcm) s)
  unfolding run_stages start_tm next_stage
  tm_made-Ended s h =
      let t = record s { threads = s.threads ++ (tm_started ∷ []) } in
      rpcm-Ended t (start_tm-Both f b w s t h refl)

  tm-Ended : (s : Fass f.F) → PmRuns f b w s → Ended (run_stages f b w from_tm s)
  tm-Ended s h =
      run_cons (build_tm f b w) (start_tm f b w ∷ from_rpcm) s (inr (inl (h.2, h.3)))
        (λ t e. tm_made-Ended t (build_tm-Both f b w s t h e))

  pm-Ended :
      (s : Fass f.F) → Before f b w s × HasShares f b w s → Ended (run_stages f b w from_pm s)
  pm-Ended s h = run_cons (build_pm f b w) (start_pm f b w ∷ from_tm) s (inl h.0.0) (λ t e.
      let made = build_pm-HasPm f b w s t h e in
      run_cons (start_pm f b w) from_tm t (inl made.2.0)
        (λ u e'. tm-Ended u (start_pm-PmRuns f b w t u made e')))

  log-Ended :
      (s : Fass f.F) → Before f b w s × HasShares f b w s → Ended (run_stages f b w from_log s)
  log-Ended s h =
      run_cons (open_log f b w) (open_database f b w ∷ contact_one f b w ∷ from_pm) s (inl h.0.0)
        (λ t e.
          let h1 = open_log-HasShares f b w s t h e in
          run_cons (open_database f b w) (contact_one f b w ∷ from_pm) t (inl h1.0.0) (λ u e1.
            let h2 = open_database-HasShares f b w t u h1 e1 in
            run_cons (contact_one f b w) from_pm u (inl h2.0.0)
              (λ v e2. pm-Ended v (contact_one-HasShares f b w u v h2 e2))))

  -- When the start ends, it has either come to its end, and then the threads of the priority manager,
  -- the terminator and the server run, made in this order; the two managers have the entries of
  -- shares.conf and one client, the priority manager has the users that are made of the entries, and
  -- the process holds the descriptor of the server, which is not -1, and nothing else of the network; or
  -- it has been ended before, and then no thread runs, or that of the priority manager runs without
  -- a terminator, or all but that of the server run.
  pub start-Ended : Ended (start f b w)
  unfolding start
  start-Ended = run_cons (configure f b w) (read_shares f b w ∷ from_log) no_fass (inl refl) (λ s e.
      let h = configure-Before f b w no_fass s (refl, refl, refl) e in
      run_cons (read_shares f b w) from_log s (inl h.0)
        (λ t e1. log-Ended t (read_shares-HasShares f b w s t h e1)))
