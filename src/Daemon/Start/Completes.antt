-- ===== src/Daemon/Start/Completes.antt =====
-- The start comes to its end.
use one_fass.Daemon.Start.Found.{found_int, found_long, found_bool}
use one_fass.Base.{
  ℕ, ◌<◌, pos, true, false, none, some, List, [], map, ◌≡◌, refl, All, All-get_elem?, inl, inr,
}
use one_fass.Text.{codes, eq_text}
use one_fass.Outcome.{done}
use one_fass.Floating.{Floating}
use one_fass.Boost.{Boost, IsBoost}
use one_fass.Client.{XmlRpcClient}
use one_fass.Config.{PropertyTree, load_shares}
use one_fass.Config.Shares.{users_of, HasSection}
use one_fass.Config.Options.{Parsed, load_configuration}
use one_fass.Config.Options.Reads.{IsTyped, IsFound, reads, load_configuration-IsFound}
use one_fass.PriorityManager.Shares.{Account, IsReadable, entry, calculate_initial_shares-entries}
use one_fass.Daemon.Start.{World, Fass, get_string, Variables}
use one_fass.Daemon.Start.Stages.{
  start, run_stages, next_stage, configure, read_shares, open_log, open_database, contact_one,
  build_pm, start_pm, build_tm, start_tm, build_rpcm, start_rpcm,
}
use one_fass.Daemon.Start.Accounts.{sections, Arrived, start-Arrived, shares_read}
use one_fass.Daemon.Managers.{Common, initialize, make_pm}
use one_fass.Daemon.Contact.{rpc_endpoint, contact, wait_for_one, wait_for_one_lem}
use one_fass.Rpc.Socket
use one_fass.Rpc.Socket.{Holding, open_fd}
use one_fass.Rpc.Socket.Held.{IsReady, start_lem}

module _ (f : Floating) (b : Boost f.F) (laws : IsBoost b) (w : World) where
  -- What the program asks of the system: the network gives what the server needs, and OpenNebula answers
  -- one of the attempts.
  pub record IsAnswered : Type 0 where
    pub named : w.hostname_rc ≡ pos 0
    pub opens : w.log_opens ≡ true
    pub ready : IsReady w.net
    pub answered :
        (client : XmlRpcClient)
        → (k : ℕ) × (k < w.patience)
          × (contact (w.attempts k) client ≡ done true)
          × ((j : ℕ) → j < k → contact (w.attempts j) client ≡ done false)

  waits :
      IsAnswered
      → (client : XmlRpcClient)
      → (k : ℕ) × (wait_for_one w.patience w.attempts client ≡ done (some k))
  waits a client =
      let (k, few, found, before) = a.answered client in
      (k, (wait_for_one_lem w.patience w.attempts client k).1 (few, found, before))

  server_starts :
      IsAnswered → (h : Holding) → Socket.start w.net h ≡ done (pos 1, true, open_fd w.net.fd h)
  server_starts a h = elim (start_lem w.net h) [
    | inl (ready, e) ↦ e
    | inr (not_ready, e) ↦ absurd (not_ready a.ready)
  ]

  completes :
      (accounts : List (Account f.F)) (file : Parsed) {vm : Variables}
      → IsAnswered
      → w.fassd_conf ≡ some file
      → load_configuration (some file) ≡ some vm
      → All (IsFound vm) reads
      → eq_text (get_string vm (codes "database") (codes "type")) (codes "influxdb") ≡ true
      → load_shares false w.shares_conf [] ≡ done (true, map (entry f b) accounts)
      → All (IsReadable f b) accounts
      → (start f b w).1 ≡ done (start f b w).0
  unfolding start run_stages next_stage configure read_shares open_log open_database contact_one
      build_pm make_pm start_pm build_tm start_tm build_rpcm start_rpcm
  completes accounts file {vm} a conf loaded found influx shares readable =
      let (n0, e0) =
        found_int vm (codes "fass") (codes "log_level")
          (All-get_elem? (IsFound vm) 0 reads found refl) in
      let (n1, e1) =
        found_int vm (codes "database") (codes "port")
          (All-get_elem? (IsFound vm) 3 reads found refl) in
      let (n2, e2) =
        found_long vm (codes "rpcm") (codes "message_size")
          (All-get_elem? (IsFound vm) 8 reads found refl) in
      let (n3, e3) =
        found_int vm (codes "rpcm") (codes "timeout")
          (All-get_elem? (IsFound vm) 9 reads found refl) in
      let (n4, e4) =
        found_int vm (codes "pm") (codes "manager_timer")
          (All-get_elem? (IsFound vm) 10 reads found refl) in
      let (n5, e5) =
        found_int vm (codes "pm") (codes "period")
          (All-get_elem? (IsFound vm) 12 reads found refl) in
      let (n6, e6) =
        found_int vm (codes "pm") (codes "n_periods")
          (All-get_elem? (IsFound vm) 13 reads found refl) in
      let (n7, e7) =
        found_int vm (codes "pm") (codes "plugin_debug")
          (All-get_elem? (IsFound vm) 14 reads found refl) in
      let (n8, e8) =
        found_int vm (codes "terminator") (codes "manager_timer")
          (All-get_elem? (IsFound vm) 15 reads found refl) in
      let (n9, e9) =
        found_long vm (codes "terminator") (codes "max_wait")
          (All-get_elem? (IsFound vm) 16 reads found refl) in
      let (n10, e10) =
        found_int vm (codes "rpcm") (codes "max_conn")
          (All-get_elem? (IsFound vm) 20 reads found refl) in
      let (n11, e11) =
        found_int vm (codes "rpcm") (codes "max_conn_backlog")
          (All-get_elem? (IsFound vm) 21 reads found refl) in
      let (n12, e12) =
        found_int vm (codes "rpcm") (codes "keepalive_timeout")
          (All-get_elem? (IsFound vm) 22 reads found refl) in
      let (n13, e13) =
        found_int vm (codes "rpcm") (codes "keepalive_max_conn")
          (All-get_elem? (IsFound vm) 23 reads found refl) in
      let (t, e14) =
        found_bool vm (codes "rpcm") (codes "rpc_log")
          (All-get_elem? (IsFound vm) 24 reads found refl) in
      let c : Common = record {
        one_endpoint =
            rpc_endpoint (get_string vm (codes "fass") (codes "one_endpoint"))
              (get_string vm (codes "fass") (codes "one_port"));
        one_secret = get_string vm (codes "fass") (codes "one_secret");
        message_size = n2;
        timeout = n3;
        manager_timer = n4;
      } in
      let (k, waited) = waits a (initialize none c) in
      let made = calculate_initial_shares-entries f b laws accounts w.timestamp [] readable in
      let served = server_starts a (record { fds = []; infos = 0 }) in
      rw
        (
          a.named, conf, loaded, shares, e0, a.opens, e1, influx, e2, e3, e4, waited, e5, e6, e7,
          made, e2, e3, e4, e8, e9, e2, e3, e4, e10, e11, e12, e13, e14, e2, e3, e4, served,
        )
        refl

  pub start-completes :
      (pt : PropertyTree) (accounts : List (Account f.F)) (file : Parsed) {vm : Variables}
      → IsAnswered
      → w.fassd_conf ≡ some file
      → IsTyped file
      → load_configuration (some file) ≡ some vm
      → eq_text (get_string vm (codes "database") (codes "type")) (codes "influxdb") ≡ true
      → w.shares_conf ≡ some pt
      → pt.sections ≡ users_of (sections f b accounts)
      → All (HasSection pt) (sections f b accounts)
      → All (IsReadable f b) accounts
      → (s : Fass f.F) × ((start f b w).1 ≡ done s) × Arrived f b accounts s
  start-completes pt accounts file a conf typed loaded influx shares order has readable =
      let read = shares_read f b laws w pt accounts shares order has in
      let found = load_configuration-IsFound file typed loaded in
      let ended = completes accounts file a conf loaded found influx read readable in
      ((start f b w).0, ended, start-Arrived f b laws w pt accounts shares order has readable ended)
