-- ===== src/Plugin/Sample.antt =====
-- Two users with their usage, and a third with that of the first.
use one_fass.Base.{some, ℕ, ℤ, pos, negsuc, [], ◌∷◌, ◌≡◌, refl, ◌-ℤ◌, ◌*ℤ◌, ◌+ℤ◌}
use one_fass.StdMap.{Map, find}
use one_fass.Floating.{whole}
use one_fass.User.{User, Usage}
use one_fass.Plugin.{evaluate_total_usage, update_prio}

abbrev of_usage : ℤ → Usage
of_usage n = record { usage = n; start_time = pos 0; stop_time = pos 0 }

abbrev with_usage : ℤ → ℤ → ℤ → ℤ → Map ℕ Usage
with_usage h0 h1 h2 h3 =
    (0, of_usage h0) ∷ (1, of_usage h1) ∷ (2, of_usage h2) ∷ (3, of_usage h3) ∷ []

abbrev pub light : User ℤ
light = record {
  user_id = 5;
  group_id = 1;
  share = pos 1;
  ttl = pos 0;
  cpu_usage = with_usage (pos 4) (pos 3) (pos 2) (pos 1);
  memory_usage = [];
}

abbrev pub heavy : User ℤ
heavy = record {
  user_id = 6;
  group_id = 1;
  share = pos 1;
  ttl = pos 0;
  cpu_usage = with_usage (pos 9) (pos 6) (pos 3) (pos 0);
  memory_usage = [];
}

abbrev pub twin : User ℤ
twin = record light { user_id = 6 }

pub light_prio :
    (oid : ℤ)
    → update_prio whole (evaluate_total_usage (light ∷ heavy ∷ [])) oid light (negsuc 0)
      ≡ some (pos 997_000_000_000_000)
unfolding update_prio evaluate_total_usage find one_fass.StdMap.insert ◌*ℤ◌ ◌-ℤ◌ ◌+ℤ◌
light_prio oid = refl

pub heavy_prio :
    (oid : ℤ)
    → update_prio whole (evaluate_total_usage (light ∷ heavy ∷ [])) oid heavy (negsuc 0)
      ≡ some (pos 991_000_000_000_000)
unfolding update_prio evaluate_total_usage find one_fass.StdMap.insert ◌*ℤ◌ ◌-ℤ◌ ◌+ℤ◌
heavy_prio oid = refl

pub twin_prio :
    (oid : ℤ)
    → update_prio whole (evaluate_total_usage (light ∷ twin ∷ [])) oid twin (negsuc 0)
      ≡ some (pos 997_000_000_000_000)
unfolding update_prio evaluate_total_usage find one_fass.StdMap.insert ◌*ℤ◌ ◌-ℤ◌ ◌+ℤ◌
twin_prio oid = refl

pub light_prio_again :
    (oid : ℤ)
    → update_prio whole (evaluate_total_usage (light ∷ twin ∷ [])) oid light (negsuc 0)
      ≡ some (pos 997_000_000_000_000)
unfolding update_prio evaluate_total_usage find one_fass.StdMap.insert ◌*ℤ◌ ◌-ℤ◌ ◌+ℤ◌
light_prio_again oid = refl

-- In the debug mode the priority is the id.
pub debug_prio :
    (oid : ℤ) → update_prio whole (evaluate_total_usage {F = ℤ} []) oid light (pos 0) ≡ some oid
unfolding update_prio
debug_prio oid = refl
