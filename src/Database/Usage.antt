-- ===== src/Database/Usage.antt =====
-- The usage records that are written for a user whom `eval_usage` has served.
use mathlib.Core.List.{append_assoc}
use one_fass.Base.{
  ap, Bool, ℕ, zero, suc, ℤ, pos, ◌==ℤ◌, ◌==◌, true, false, List, [], ◌∷◌, ◌++◌, ◌≡◌, refl, arith,
  if◌then◌else◌,
}
use mathlib.Core.List.{append-nil, append_assoc}
use one_fass.Text.{Text, codes}
use one_fass.Text.Decimal.{dec, dec_ℕ}
use one_fass.Text.Split.{join}
use one_fass.StdMap.Entries.{entries}
use one_fass.User.{Usage}
use one_fass.Database.{usage_fields, usage_point, nanoseconds}

abbrev pub field : ℕ → ℤ → Text
field k n = codes "value" ++ (dec_ℕ k ++ (codes "=" ++ dec n))

-- The fields of the periods from `k` on.
abbrev pub fields : ℕ → ℕ → (ℕ → ℤ) → List Text
fields zero k g = []
fields (suc n) k g = field k (g k) ∷ fields n (suc k) g

abbrev with_times : ℤ → ℤ → (ℕ → ℤ) → ℕ → Usage
with_times start stop g k = record { usage = g k; start_time = start; stop_time = stop }

abbrev comma_before : List Text → Text
comma_before [] = []
comma_before (w ∷ ws) = b',' ∷ join b',' (w ∷ ws)

join_cons : (w : Text) (ws : List Text) → join b',' (w ∷ ws) ≡ w ++ comma_before ws
unfolding join
join_cons w [] = simp append-nil
join_cons w (v ∷ ws) = refl

if_same : (b : Bool) (n : ℤ) → (if b then n else n) ≡ n
if_same true n = refl
if_same false n = refl

positive : (k : ℕ) → (suc k == 0) ≡ false
positive k = ground arith

module _ (start stop : ℤ) (g : ℕ → ℤ) where
  usage_fields_later :
      (n k : ℕ)
      → usage_fields (entries n (suc k) (with_times start stop g)) stop
        ≡ (comma_before (fields n (suc k) g), stop)
  unfolding usage_fields
  usage_fields_later zero k = refl
  usage_fields_later (suc n) k =
      rw (if_same (stop ==ℤ pos 0) stop, usage_fields_later n (suc k))
        (rw (join_cons (field (suc k) (g (suc k))) (fields n (suc (suc k)) g))
          (rw (positive k) (simp append_assoc)))

  usage_fields_all :
      (n : ℕ)
      → usage_fields (entries (suc n) 0 (with_times start stop g)) (pos 0)
        ≡ (join b',' (fields (suc n) 0 g), stop)
  unfolding usage_fields
  usage_fields_all n =
      rw (usage_fields_later n 0, join_cons (field 0 (g 0)) (fields n 1 g)) (simp append_assoc)

  -- The point for a user whose periods 0 to n all end at one time, as `eval_usage` leaves them:
  -- the periods in order, as fields joined by commas, and the common end as the time, whatever it
  -- is.
  pub usage_point-fields :
      (measurement : Text) (uid n : ℕ)
      → usage_point measurement uid (entries (suc n) 0 (with_times start stop g))
        ≡ measurement
          ++ (codes ",user="
              ++ (dec_ℕ uid ++ (codes " " ++ (join b',' (fields (suc n) 0 g) ++ nanoseconds stop))))
  unfolding usage_point
  usage_point-fields measurement uid n =
      ap
        (λ (p : Text × ℤ).
          measurement ++ (codes ",user=" ++ (dec_ℕ uid ++ (codes " " ++ (p.0 ++ nanoseconds p.1)))))
        (usage_fields_all n)
