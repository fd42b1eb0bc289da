-- ===== src/AcctPool/Integral.antt =====
-- What `eval_usage` stores: for each user and period the time integral of the CPUs and of the memory
-- held by the user's entries, from `time_start` to the end of the period.
use mathlib.Core.List.{foldl}
use one_fass.Base.{
  drop, ◌+◌, ◌≤◌, All, none, some, ltb_ℤ, arith, ◌==ℤ◌, ltb, ◌++◌, if◌then◌else◌, pos_part, ℕ, ℤ,
  pos, ◌-ℤ◌, ◌*ℤ◌, ◌≡◌, refl, List, [], ◌∷◌,
}
use one_fass.Floating.{Floating}
use one_fass.User.{flush_usage, Usage, User, set_cpu_usage, set_memory_usage}
use mathlib.Core.List.{append-nil, append_assoc}
use one_fass.StdMap.Entries.{entries, insert_last}
use one_fass.AcctPool.{eval_user, stack, store}
use one_fass.StdMap.{Map}
use one_fass.Base.{suc, zero, ◌<◌, All-map, All-append}
use one_fass.AcctPool.Rows.{sweep_clear, sweep_overrun, row, sweep-row}
use one_fass.AcctPool.{AcctObject, window, Sums, add_entry, add_entries}

abbrev pub min_ℤ : ℤ → ℤ → ℤ
min_ℤ a b = if ltb_ℤ b a then b else a

abbrev pub max_ℤ : ℤ → ℤ → ℤ
max_ℤ a b = if ltb_ℤ a b then b else a

-- Where an entry ends, seen from time `stop`: an end of 0 means that the VM still runs.
abbrev pub end_of : {F : Type 0} → AcctObject F → ℤ → ℤ
end_of a stop = if a.stop_time ==ℤ pos 0 then stop else min_ℤ a.stop_time stop

-- The seconds that an entry shares with the time from `time_start` to `stop`.
abbrev pub seconds : {F : Type 0} → ℤ → ℤ → AcctObject F → ℕ
seconds time_start stop a = pos_part (end_of a stop -ℤ max_ℤ a.start_time time_start)

window_lem :
    (time_start stop : ℤ) {F : Type 0} (a : AcctObject F)
    → window time_start stop a
      ≡ (if ltb 0 (seconds time_start stop a) then some (pos (seconds time_start stop a)) else none)
unfolding window ◌-ℤ◌
window_lem time_start stop a = ground arith

module _ (f : Floating) (time_start time_stop period : ℤ) where
  open f use {F, D, f_of_int, f_mul, widen, d_of_int, d_add, d_to_int}

  abbrev pub end_of_period : ℕ → ℤ
  end_of_period k = time_stop -ℤ (pos k *ℤ period)

  abbrev pub add_cpu_seconds : ℕ → D → AcctObject F → D
  add_cpu_seconds k sum a =
      let n = seconds time_start (end_of_period k) a in
      if ltb 0 n then d_add sum (widen (f_mul a.cpu (f_of_int (pos n)))) else sum

  abbrev pub cpu_integral : ℕ → List (AcctObject F) → D
  cpu_integral k = foldl (add_cpu_seconds k) (d_of_int (pos 0))

  abbrev pub add_mem_seconds : ℕ → D → AcctObject F → D
  add_mem_seconds k sum a =
      let n = seconds time_start (end_of_period k) a in
      if ltb 0 n then d_add sum (d_of_int (a.memory *ℤ pos n)) else sum

  abbrev pub mem_integral : ℕ → List (AcctObject F) → D
  mem_integral k = foldl (add_mem_seconds k) (d_of_int (pos 0))

  abbrev pub usage_of : D → Usage
  usage_of x = record { usage = d_to_int x; start_time = time_start; stop_time = time_stop }

  abbrev total : ℕ → List (AcctObject F) → Sums f → Sums f
  total k l s = foldl (λ s a. add_entry f time_start time_stop period a k s) s l

  add_entries-row :
      (n : ℕ) (l : List (AcctObject F)) (g : ℕ → Sums f) (t : List (Sums f))
      → add_entries f time_start time_stop period n l (row n 0 g ++ t)
        ≡ some (row n 0 (λ k. total k l (g k)) ++ t)
  unfolding add_entries
  add_entries-row n [] g t = refl
  add_entries-row n (a ∷ l) g t =
      rw (sweep-row (add_entry f time_start time_stop period a) n 0 g t)
        (add_entries-row n l (λ k. add_entry f time_start time_stop period a k (g k)) t)

  -- Without the arrays: the sums of one period are the two integrals.
  total_step :
      (k : ℕ) (a : AcctObject F) (s : Sums f)
      → add_entry f time_start time_stop period a k s
        ≡ record { cpu = add_cpu_seconds k s.cpu a; mem = add_mem_seconds k s.mem a }
  unfolding add_entry
  total_step k a s = rw (window_lem time_start (end_of_period k) a) (ground arith)

  total-eq-integrals :
      (k : ℕ) (l : List (AcctObject F)) (s : Sums f)
      → total k l s ≡ record {
        cpu = foldl (add_cpu_seconds k) s.cpu l;
        mem = foldl (add_mem_seconds k) s.mem l;
      }
  total-eq-integrals k [] s = refl
  total-eq-integrals k (a ∷ l) s = rw (total_step k a s) (
      total-eq-integrals k l
        (record { cpu = add_cpu_seconds k s.cpu a; mem = add_mem_seconds k s.mem a }))

  store-row :
      (n k : ℕ) (g : ℕ → Sums f) (t : List (Sums f)) (u : User F)
      → All (λ e. e.0 < k) u.cpu_usage
      → All (λ e. e.0 < k) u.memory_usage
      → store f time_start time_stop n k (row n k g ++ t) u
        ≡ some (record u {
          cpu_usage = u.cpu_usage ++ entries n k (λ j. usage_of (g j).cpu);
          memory_usage = u.memory_usage ++ entries n k (λ j. usage_of (g j).mem);
        })
  unfolding store set_cpu_usage set_memory_usage
  store-row zero k g t u h i = rw (append-nil u.cpu_usage, append-nil u.memory_usage)
  store-row (suc n) k g t u h i =
      rw
        (
          insert_last k (usage_of (g k).cpu) u.cpu_usage h,
          insert_last k (usage_of (g k).mem) u.memory_usage i,
        )
        (rw (store-row n (suc k) g t longer (grows _ _ h) (grows _ _ i)) (
          rw (
            append_assoc u.cpu_usage ((k, usage_of (g k).cpu) ∷ []),
            append_assoc u.memory_usage ((k, usage_of (g k).mem) ∷ []),
          )))
    where
      longer : User F
      longer = record u {
        cpu_usage = u.cpu_usage ++ ((k, usage_of (g k).cpu) ∷ []);
        memory_usage = u.memory_usage ++ ((k, usage_of (g k).mem) ∷ []);
      }

      grows :
          (v : Usage) (m : Map ℕ Usage)
          → All (λ e. e.0 < k) m
          → All (λ e. e.0 < suc k) (m ++ ((k, v) ∷ []))
      grows v m h =
          All-append (λ e. e.0 < suc k) m _ (All-map (λ e q. omega arith) m h) (omega arith)

  -- The user record that `eval_usage` leaves.
  abbrev pub with_integrals : ℕ → List (AcctObject F) → User F → User F
  with_integrals num_periods l u = record u {
    cpu_usage = entries (num_periods + 1) 0 (λ k. usage_of (cpu_integral k l));
    memory_usage = entries (num_periods + 1) 0 (λ k. usage_of (mem_integral k l));
  }

  pub eval_user_lem :
      (junk : Sums f) (l : List (AcctObject F)) (num_periods : ℕ) (u : User F)
      → num_periods ≤ 3
      → eval_user f junk l time_start time_stop period num_periods u
        ≡ some (with_integrals num_periods l u)
  unfolding eval_user
  eval_user_lem junk l num_periods u h =
      rw
        (
          sweep_clear zeros n 0 (stack f junk) (omega arith),
          add_entries-row n l (λ k. zeros) (drop n (stack f junk)),
          store-row n 0 (λ k. total k l zeros) (drop n (stack f junk)) (flush_usage u) tt tt,
        )
        (simp (λ (k : ℕ). total-eq-integrals k l zeros))
    where
      n : ℕ
      n = num_periods + 1

      zeros : Sums f
      zeros = record { cpu = d_of_int (pos 0); mem = d_of_int (pos 0) }

  -- More than three periods do not fit the arrays of four.
  pub eval_user_overrun :
      (junk : Sums f) (l : List (AcctObject F)) (num_periods : ℕ) (u : User F)
      → 3 < num_periods
      → eval_user f junk l time_start time_stop period num_periods u ≡ none
  unfolding eval_user
  eval_user_overrun junk l num_periods u h =
      rw (sweep_overrun (λ k s. zeros) (num_periods + 1) 0 (stack f junk) (omega arith))
    where
      zeros : Sums f
      zeros = record { cpu = d_of_int (pos 0); mem = d_of_int (pos 0) }
