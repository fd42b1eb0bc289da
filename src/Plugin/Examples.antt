-- ===== src/Plugin/Examples.antt =====
-- Priorities by src/pm/BasicPlugin.cc of concrete users.
use one_fass.Base.{pos, negsuc, [], ◌∷◌, ◌≡◌, refl, arith, ◌≤ℤ◌, ◌-ℤ◌, ◌*ℤ◌, ◌+ℤ◌}
use one_fass.StdMap.{find}
use one_fass.Floating.{whole}
use one_fass.Plugin.{BasicPlugin, evaluate_total_usage, update_prio, half_life}
use one_fass.Plugin.Priority.{whole-IsOrdered, update_prio_fair, update_prio_senior, Reads, Totals}
use one_fass.Plugin.Totals.{evaluate_total_usage-first}
use one_fass.Plugin.Sample.{light, heavy}

evaluate_total_usage-first_example :
    evaluate_total_usage (light ∷ heavy ∷ []) ≡ evaluate_total_usage (light ∷ [])
evaluate_total_usage-first_example =
    evaluate_total_usage-first light (heavy ∷ []) ((omega arith, omega arith), tt)

abbrev totals : BasicPlugin
totals = record { tot_cpu = (0, pos 13) ∷ (1, pos 9) ∷ (2, pos 5) ∷ (3, pos 1) ∷ []; tot_mem = [] }

light-Reads : Reads whole light (pos 4) (pos 3) (pos 2) (pos 1)
unfolding one_fass.Plugin.usage_at find
light-Reads = record { at_0 = refl; at_1 = refl; at_2 = refl; at_3 = refl }

heavy-Reads : Reads whole heavy (pos 9) (pos 6) (pos 3) (pos 0)
unfolding one_fass.Plugin.usage_at find
heavy-Reads = record { at_0 = refl; at_1 = refl; at_2 = refl; at_3 = refl }

totals-Totals : Totals whole totals (pos 13) (pos 9) (pos 5) (pos 1)
unfolding find
totals-Totals = record { at_0 = refl; at_1 = refl; at_2 = refl; at_3 = refl }

update_prio_fair_example : pos 991_000_000_000_000 ≤ℤ pos 997_000_000_000_000
unfolding update_prio find ◌-ℤ◌ ◌*ℤ◌ ◌+ℤ◌
update_prio_fair_example =
    update_prio_fair whole whole-IsOrdered totals 6 light heavy (negsuc 0) refl light-Reads
      heavy-Reads totals-Totals refl (omega arith) (omega arith) (omega arith) (omega arith)
      (omega arith) refl refl

update_prio_senior_example : pos 997_000_000_000_000 ≤ℤ pos 997_000_000_000_000
unfolding update_prio find ◌-ℤ◌ ◌*ℤ◌ ◌+ℤ◌
update_prio_senior_example =
    update_prio_senior whole whole-IsOrdered totals 6 9 light (negsuc 0) refl light-Reads
      totals-Totals (omega arith) refl refl
