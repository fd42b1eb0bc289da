-- ===== src/Daemon/Start/Steps.antt =====
-- What each stage of `Fass::start` adds to what is there.
use mathlib.Core.Path.{subst}
use one_fass.Base.{
  ℤ, inr, inl, negsuc, ◌≢◌, sym, ap, ◌∙◌, pos, ◌==ℤ◌, Bool, true, false, not, Option, none, some,
  List, [], ◌∷◌, ◌++◌, ◌≡◌, refl,
}
use one_fass.Text.{codes, eq_text}
use one_fass.Config.Options.{load_configuration}
use one_fass.Daemon.Contact.{wait_for_one}
use one_fass.Rpc.Socket
use one_fass.Rpc.Socket.{Holding, open_fd}
use one_fass.Rpc.Socket.Held.{start_lem}
use one_fass.Outcome.{done, or_throw, >>=-eq-done, done-injective}
use one_fass.Floating.{Floating}
use one_fass.Boost.{Boost}
use one_fass.Client.{XmlRpcClient}
use one_fass.Config.{load_shares}
use one_fass.Log.Shared.{init_log_system}
use one_fass.PriorityManager.{calculate_initial_shares}
use one_fass.Daemon.Managers.{RpcmObject, make_tm, Common, initialize, PmObject, TmObject, make_pm}
use one_fass.Daemon.Start.{
  no_holding, get_int, get_string, read_pm, read_tm, read_rpcm, World, Started, pm_started,
  tm_started, rpcm_started, Fass, read_common,
}
use one_fass.Daemon.Start.Stages.{
  in_time, require, configure, read_shares, open_log, open_database, contact_one, build_pm,
  start_pm, build_tm, start_tm, build_rpcm, start_rpcm,
}

module _ (f : Floating) (b : Boost f.F) (w : World) where
  abbrev pub Before : Fass f.F → Type 0
  Before s = (s.threads ≡ []) × (s.tm ≡ none) × (s.held ≡ no_holding)

  -- The entries are those of shares.conf.
  abbrev pub HasShares : Fass f.F → Type 0
  HasShares s = load_shares false w.shares_conf [] ≡ done (true, s.shares)

  -- The priority manager has the entries, the users that they make, and the client.
  abbrev pub HasPm : Fass f.F → PmObject f.F → Type 0
  HasPm s pm =
      (s.pm ≡ some pm)
      × (pm.shares ≡ s.shares)
      × (s.client ≡ some pm.client)
      × (calculate_initial_shares f b s.shares w.timestamp [] ≡ done (pm.user_list, s.points))
      × HasShares s

  -- The terminator has the same entries and the same client.
  abbrev pub HasTm : Fass f.F → PmObject f.F → TmObject → Type 0
  HasTm s pm tm = (s.tm ≡ some tm) × (tm.users ≡ s.shares) × (tm.client ≡ pm.client)

  pub configure-Before : (s t : Fass f.F) → Before s → configure f b w s ≡ done t → Before t
  unfolding configure
  configure-Before s t h e =
      let (u, e0, r0) = >>=-eq-done (require (w.hostname_rc ==ℤ pos 0)) _ e in
      let (vm, e1, r1) = >>=-eq-done (or_throw (load_configuration w.fassd_conf)) _ r0 in
      subst Before (done-injective _ _ r1) h

  pub read_shares-HasShares :
      (s t : Fass f.F) → Before s → read_shares f b w s ≡ done t → Before t × HasShares t
  unfolding read_shares
  read_shares-HasShares s t h e =
      let (r, e0, r0) = >>=-eq-done (load_shares false w.shares_conf []) _ e in
      let (u, e1, r1) = >>=-eq-done (require r.0) _ r0 in
      subst (λ t. Before t × HasShares t) (done-injective _ _ r1) (h, rw (← required r.0 e1) e0)
    where
      required : (c : Bool) {u : Bool} → require c ≡ done u → c ≡ true
      required true e = refl
      required false e = cc

  pub open_log-HasShares :
      (s t : Fass f.F) → Before s × HasShares s → open_log f b w s ≡ done t → Before t × HasShares t
  unfolding open_log
  open_log-HasShares s t h e =
      let (level, e0, r0) = >>=-eq-done (get_int s.vm (codes "fass") (codes "log_level")) _ e in
      let (u, e1, r1) = >>=-eq-done (init_log_system w.log_opens) _ r0 in
      subst (λ t. Before t × HasShares t) (done-injective _ _ r1) h

  pub open_database-HasShares :
      (s t : Fass f.F)
      → Before s × HasShares s
      → open_database f b w s ≡ done t
      → Before t × HasShares t
  unfolding open_database
  open_database-HasShares s t h e =
      let (port, e0, r0) = >>=-eq-done (get_int s.vm (codes "database") (codes "port")) _ e in
      let (u, e1, r1) =
        >>=-eq-done
          (require (eq_text (get_string s.vm (codes "database") (codes "type")) (codes "influxdb")))
          _ r0 in
      subst (λ t. Before t × HasShares t) (done-injective _ _ r1) h

  pub contact_one-HasShares :
      (s t : Fass f.F)
      → Before s × HasShares s
      → contact_one f b w s ≡ done t
      → Before t × HasShares t
  unfolding contact_one
  contact_one-HasShares s t h e =
      let (common, e0, r0) = >>=-eq-done (read_common s.vm) _ e in
      let (waited, e1, r1) =
        >>=-eq-done (wait_for_one w.patience w.attempts (initialize s.client common)) _ r0 in
      let (k, e2, r2) = >>=-eq-done (in_time waited) _ r1 in
      subst (λ t. Before t × HasShares t) (done-injective _ _ r2) h

  abbrev pub BeforePm : Fass f.F → Type 0
  BeforePm s = (pm : PmObject f.F) × HasPm s pm × Before s

  pub build_pm-HasPm :
      (s t : Fass f.F) → Before s × HasShares s → build_pm f b w s ≡ done t → BeforePm t
  unfolding build_pm make_pm
  build_pm-HasPm s t (before, loaded) e =
      let (c, e0, r0) = >>=-eq-done (read_pm s.vm) _ e in
      let (made, e1, r1) = >>=-eq-done (make_pm f b s.client c s.shares w.timestamp) _ r0 in
      let (users, e2, r2) =
        >>=-eq-done (calculate_initial_shares f b s.shares w.timestamp []) _ e1 in
      let same = done-injective _ _ r2 in
      subst BeforePm (done-injective _ _ r1) (
        made.0,
        (
          refl,
          ap (λ m. m.0.shares) (sym same),
          refl,
          e2 ∙ ap done (ap (λ m. (m.0.user_list, m.1)) same),
          loaded,
        ),
        before,
      )

  -- Both managers, with the threads that run and what the process holds of the network.
  abbrev pub Both : List Started → Holding → Fass f.F → Type 0
  Both threads held s =
      (pm : PmObject f.F) × (tm : TmObject) × HasPm s pm
      × HasTm s pm tm
      × (s.threads ≡ threads)
      × (s.held ≡ held)

  abbrev pub served : Holding
  served = open_fd w.net.fd no_holding

  abbrev pub PmRuns : Fass f.F → Type 0
  PmRuns s =
      (pm : PmObject f.F) × HasPm s pm
      × (s.threads ≡ pm_started ∷ [])
      × (s.tm ≡ none)
      × (s.held ≡ no_holding)

  pub start_pm-PmRuns : (s t : Fass f.F) → BeforePm s → start_pm f b w s ≡ done t → PmRuns t
  unfolding start_pm
  start_pm-PmRuns s t (pm, has, (empty, no_tm, held)) e =
      subst PmRuns (done-injective _ _ e)
        (pm, has, ap (λ ts. ts ++ (pm_started ∷ [])) empty, no_tm, held)

  kept : (o : Option XmlRpcClient) (k : XmlRpcClient) (c : Common) → o ≡ some k → initialize o c ≡ k
  kept o k c e = rw e refl

  pub build_tm-Both :
      (s t : Fass f.F) → PmRuns s → build_tm f b w s ≡ done t → Both (pm_started ∷ []) no_holding t
  unfolding build_tm
  build_tm-Both s t (pm, (at, shares, client, users, loaded), one, no_tm, held) e =
      let (c, e0, r0) = >>=-eq-done (read_tm s.vm) _ e in
      let same = kept s.client pm.client c.common client in
      subst (Both (pm_started ∷ []) no_holding) (done-injective _ _ r0) (
        pm,
        make_tm s.client c s.shares,
        (at, shares, ap some same, users, loaded),
        (refl, refl, same),
        one,
        held,
      )

  pub start_tm-Both :
      (s t : Fass f.F)
      → Both (pm_started ∷ []) no_holding s
      → start_tm f b w s ≡ done t
      → Both (pm_started ∷ tm_started ∷ []) no_holding t
  unfolding start_tm
  start_tm-Both s t (pm, tm, has, also, one, held) e =
      subst (Both (pm_started ∷ tm_started ∷ []) no_holding) (done-injective _ _ e)
        (pm, tm, has, also, ap (λ ts. ts ++ (tm_started ∷ [])) one, held)

  -- The server has its manager.
  abbrev pub HasRpcm : Fass f.F → Type 0
  HasRpcm s = (rpcm : RpcmObject) × (s.rpcm ≡ some rpcm)

  pub build_rpcm-Both :
      (ts : List Started) (held : Holding) (s t : Fass f.F)
      → Both ts held s
      → build_rpcm f b w s ≡ done t
      → Both ts held t × HasRpcm t
  unfolding build_rpcm
  build_rpcm-Both ts held s t h e =
      let (rpcm, e0, r0) = >>=-eq-done (read_rpcm w.log_location s.vm) _ e in
      subst (λ t. Both ts held t × HasRpcm t) (done-injective _ _ r0) (h, (rpcm, refl))

  pub start_rpcm-Both :
      (s t : Fass f.F)
      → Both (pm_started ∷ tm_started ∷ []) no_holding s × HasRpcm s
      → start_rpcm f b w s ≡ done t
      → Both (pm_started ∷ tm_started ∷ rpcm_started ∷ []) served t
        × HasRpcm t
        × (w.net.fd ≢ negsuc 0)
  unfolding start_rpcm
  start_rpcm-Both s t ((pm, tm, has, also, two, held), made) e =
      let (answer, e0, r0) = >>=-eq-done (Socket.start w.net s.held) _ e in
      let (u, e1, r1) = >>=-eq-done (require (not (answer.0 ==ℤ pos 0))) _ r0 in
      elim (start_lem w.net s.held) [
        | inl (ready, opened) ↦
            let same = done-injective _ _ (sym opened ∙ e0) in
            subst
              (λ t.
                Both (pm_started ∷ tm_started ∷ rpcm_started ∷ []) served t
                × HasRpcm t
                × (w.net.fd ≢ negsuc 0))
              (done-injective _ _ r1)
              (
                (
                  pm,
                  tm,
                  has,
                  also,
                  ap (λ ts. ts ++ (rpcm_started ∷ [])) two,
                  ap (λ r. r.2) (sym same) ∙ ap (open_fd w.net.fd) held,
                ),
                made,
                ready.1,
              )
        | inr (not_ready, failed) ↦
            absurd (refused (ap (λ r. r.0) (sym (done-injective _ _ (sym failed ∙ e0)))) e1)
      ]
    where
      refused : {n : ℤ} {u : Bool} → n ≡ pos 0 → require (not (n ==ℤ pos 0)) ≡ done u → ⊥
      refused zero_rc e = cc
