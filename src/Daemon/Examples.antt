-- ===== src/Daemon/Examples.antt =====
-- Runs of the daemon.
use one_fass.Base.{
  ℕ, zero, suc, pos, negsuc, true, false, some, [], ◌∷◌, ◌≡◌, ◌≢◌, ◌↔◌, ◌⊎◌, inr, refl, Bool, ◌<◌,
  Among,
}
use one_fass.Text.{codes}
use one_fass.Outcome.{done}
use one_fass.Client.{Transport, succeeded, array, of_list, boolean, string, call}
use one_fass.VmPool.Sample.{client, silent}
use one_fass.Daemon.{System, in_foreground, fassd_main, fassd_init, read_flags, main}
use one_fass.Daemon.Lock.{InitFirst, main-fassd_main, main-locked}
use one_fass.Daemon.Contact.{contact, wait_for_one}
use one_fass.Daemon.Contact.Answers.{Confirms, Fails, config_answer, wait_for_one_iff}

abbrev sys : System
sys = record {
  location = some (codes "/opt/fass/");
  can_create = true;
  pid = pos 1234;
  chdir_rc = pos 0;
  sid = pos 77;
  main_returns = true;
}

main-fassd_main_example :
    (Among fassd_main ((main sys (in_foreground ∷ []) false).acts) ↔ (
      (foreground : Bool) × (read_flags (in_foreground ∷ []) false ≡ inr foreground)
      × (false ≡ false)
      × (true ≡ true)
      × (pos 0 ≡ pos 0)
      × ((foreground ≡ true) ⊎ ((pos 1234 ≡ pos 0) × (pos 77 ≢ negsuc 0)))))
    × (Among fassd_init ((main sys (in_foreground ∷ []) false).acts)
        ↔ InitFirst (in_foreground ∷ []))
main-fassd_main_example = main-fassd_main sys (in_foreground ∷ []) false

-- In the foreground, a daemon that ends in a throw leaves the lock file.
abbrev thrown : System
thrown = record sys { main_returns = false }

main-locked_example : ((main thrown (in_foreground ∷ []) false).locked ≡ true) ↔ (
    (false ≡ true)
    ⊎ ((read_flags (in_foreground ∷ []) false ≡ inr false) × (true ≡ true) × (pos 1234 ≢ pos 0))
    ⊎ (Among fassd_main ((main thrown (in_foreground ∷ []) false).acts) × (false ≡ false)))
main-locked_example = main-locked thrown (in_foreground ∷ []) false

thrown_run : (main thrown (in_foreground ∷ []) false).locked ≡ true
unfolding main read_flags
thrown_run = refl

-- The second attempt is answered.
abbrev late : ℕ → Transport
late zero = silent
late (suc k) =
    λ method params. succeeded (array (of_list (boolean true ∷ string (codes "<TEMPLATE/>") ∷ [])))

wait_for_one_iff_example : (wait_for_one 5 late client ≡ done (some 1)) ↔ (
    (1 < 5)
    × Confirms (config_answer (late 1) client)
    × ((j : ℕ) → j < 1 → Fails (config_answer (late j) client)))
wait_for_one_iff_example = wait_for_one_iff 5 late client 1

late_run : wait_for_one 5 late client ≡ done (some 1)
unfolding wait_for_one contact call one_fass.Client.call_async
late_run = refl
