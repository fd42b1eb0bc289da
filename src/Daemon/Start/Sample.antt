-- ===== src/Daemon/Start/Sample.antt =====
-- A system on which the daemon starts: OpenNebula answers the second attempt.
use one_fass.Base.{ℕ, zero, suc, ℤ, pos, true, false, ◌<◌, arith, none, some, [], ◌∷◌, ◌≡◌, refl}
use one_fass.Outcome.{done}
use one_fass.Floating.{whole}
use one_fass.Boost.Sample.{sample_boost, sample-IsBoost}
use one_fass.Client.{
  XmlRpcClient, call_async, Transport, succeeded, array, of_list, boolean, string, call,
}
use one_fass.Config.{load_shares}
use one_fass.VmPool.Sample.{silent}
use one_fass.PriorityManager.Shares.Sample.{
  ann_account, bob_account, ann-IsReadable, bob-IsReadable, tree, tree_has,
}
use one_fass.Rpc.Socket.{Net}
use one_fass.Text.{codes}
use one_fass.Daemon.Start.{World, Fass}
use one_fass.Daemon.Start.Stages.{start}
use one_fass.Daemon.Start.Completes.{IsAnswered, start-completes}
use one_fass.Daemon.Contact.{contact}

abbrev late : ℕ → Transport
late zero = silent
late (suc k) =
    λ method params. succeeded (array (of_list (boolean true ∷ string (codes "<TEMPLATE/>") ∷ [])))

abbrev net : Net
net = record { gai_rc = pos 0; fd = pos 5; options_rc = pos 0; aton_rc = pos 1; bind_rc = pos 0 }

abbrev pub world : World
world = record {
  hostname_rc = pos 0;
  fassd_conf = some (λ name. none);
  shares_conf = some tree;
  log_location = codes "/var/log/fass/";
  log_opens = true;
  patience = 3;
  attempts = late;
  timestamp = pos 77;
  net = net;
}

pub answered : IsAnswered whole sample_boost sample-IsBoost world
unfolding contact call call_async
answered = record {
  named = refl;
  opens = refl;
  ready = (refl, λ e. cc, λ e. cc, λ e. cc);
  answered = λ client. (1, omega arith, refl, before client);
}
  where
    before : (client : XmlRpcClient) (j : ℕ) → j < 1 → contact (late j) client ≡ done false
    before client zero lt = refl
    before client (suc j) lt = absurd (omega arith)

pub world_starts : (s : Fass ℤ) × ((start whole sample_boost world).1 ≡ done s)
unfolding one_fass.Config.Options.load_configuration one_fass.Config.Options.get_option
world_starts =
    let (s, started, arrived) =
      start-completes whole sample_boost sample-IsBoost world tree (ann_account ∷ bob_account ∷ [])
        (λ name. none) answered refl (λ name v d e h. cc) refl refl refl refl tree_has
        (ann-IsReadable, (bob-IsReadable, tt)) in
    (s, started)
