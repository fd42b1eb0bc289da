-- ===== src/AcctPool.antt =====
-- src/xml/AcctPool.cc: the historical usage of each user, from the accounting entries in the pool.
pub mod Rows
pub mod Integral
pub mod Evaluation
pub mod Accounts
pub mod SetUp
mod Examples
use one_fass.Base.{
  ℕ, zero, suc, ◌+◌, ℤ, pos, ◌-ℤ◌, ◌*ℤ◌, ltb_ℤ, ◌==ℤ◌, ◌||◌, Option, none, some, List, [], ◌∷◌,
  if◌then◌else◌,
}
use mathlib.Core.Option
use one_fass.StdMap.{Map, find}
use one_fass.Floating.{Floating}
use one_fass.User.{User, Usage, set_cpu_usage, set_memory_usage, flush_usage}

-- What `eval_usage` reads of an AcctObject.
pub record AcctObject (F : Type 0) : Type 0 where
  pub oid : ℤ
  pub uid : ℤ
  pub vmid : ℤ
  pub memory : ℤ
  pub cpu : F
  pub start_time : ℤ
  pub stop_time : ℤ
  pub static_vm : ℤ

infixl 5 ◌>>=◌
abbrev pub ◌>>=◌ {ℓ κ} : {A : Type ℓ} {B : Type κ} → Option A → (A → Option B) → Option B
none >>= g = none
some a >>= g = g a

-- `for (k = 0; k < n; k++) a[k] = g(k, a[k])`: `none` is a write behind the end of the array.
unfoldable pub sweep {ℓ} : {A : Type ℓ} → (ℕ → A → A) → ℕ → ℕ → List A → Option (List A)
sweep g zero k xs = some xs
sweep g (suc n) k [] = none
sweep g (suc n) k (x ∷ xs) = do rest ← sweep g n (suc k) xs; some (g k x ∷ rest)

-- The seconds for which an entry counts in the period that ends at `stop`, if any.
window : ℤ → ℤ → {F : Type 0} → AcctObject F → Option ℤ
window time_start stop a =
    let stop_entry =
      if a.stop_time ==ℤ pos 0 || ltb_ℤ stop a.stop_time then stop else a.stop_time in
    let start_entry = if ltb_ℤ a.start_time time_start then time_start else a.start_time in
    if ltb_ℤ start_entry stop_entry then some (stop_entry -ℤ start_entry) else none

module _ (f : Floating) where
  open f use {F, D, f_of_int, f_mul, widen, d_of_int, d_add, d_to_int}

  -- One element of `sum_cpu` and of `sum_mem`.
  pub record Sums : Type 0 where
    pub cpu : D
    pub mem : D

  add_cpu : D → AcctObject F → Option ℤ → D
  add_cpu sum a none = sum
  add_cpu sum a (some n) = d_add sum (widen (f_mul a.cpu (f_of_int n)))

  add_mem : D → AcctObject F → Option ℤ → D
  add_mem sum a none = sum
  add_mem sum a (some n) = d_add sum (d_of_int (a.memory *ℤ n))

  add_entry : ℤ → ℤ → ℤ → AcctObject F → ℕ → Sums → Sums
  unfolding window add_cpu add_mem
  add_entry time_start time_stop period a k s =
      let w = window time_start (time_stop -ℤ (pos k *ℤ period)) a in
      record { cpu = add_cpu s.cpu a w; mem = add_mem s.mem a w }

  add_entries : ℤ → ℤ → ℤ → ℕ → List (AcctObject F) → List Sums → Option (List Sums)
  add_entries time_start time_stop period n [] sums = some sums
  add_entries time_start time_stop period n (a ∷ rest) sums =
      sweep (add_entry time_start time_stop period a) n 0 sums
      >>= add_entries time_start time_stop period n rest

  store : ℤ → ℤ → ℕ → ℕ → List Sums → User F → Option (User F)
  unfolding set_cpu_usage set_memory_usage
  store time_start time_stop zero k sums u = some u
  store time_start time_stop (suc n) k [] u = none
  store time_start time_stop (suc n) k (s ∷ sums) u =
      store time_start time_stop n (suc k) sums
        (set_memory_usage k (of_sum s.mem) (set_cpu_usage k (of_sum s.cpu) u))
    where
      of_sum : D → Usage
      of_sum x = record { usage = d_to_int x; start_time = time_start; stop_time = time_stop }

  -- `double sum_cpu[4], sum_mem[4]`, with what they hold before they are set.
  abbrev stack : Sums → List Sums
  stack junk = junk ∷ junk ∷ junk ∷ junk ∷ []

  pub eval_user : Sums → List (AcctObject F) → ℤ → ℤ → ℤ → ℕ → User F → Option (User F)
  unfolding add_entry add_entries sweep store flush_usage
  eval_user junk acct_list time_start time_stop period num_periods u = do
    let n_periods = num_periods + 1
    let zeros : Sums = record { cpu = d_of_int (pos 0); mem = d_of_int (pos 0) }
    cleared ← sweep (λ k s. zeros) n_periods 0 (stack junk)
    sums ← add_entries time_start time_stop period n_periods acct_list cleared
    store time_start time_stop n_periods 0 sums (flush_usage u)

  -- `AcctPool::get`: no entry is the empty list.
  pub get : ℤ → Map ℤ (List (AcctObject F)) → List (AcctObject F)
  unfolding find
  get uid objects = elim (find ltb_ℤ uid objects) [ none ↦ [] | some l ↦ l ]

  -- The loop over the users.
  unfoldable pub eval_usage :
      Sums → Map ℤ (List (AcctObject F)) → ℤ → ℤ → ℤ → ℕ → List (User F) → Option (List (User F))
  unfolding eval_user get
  eval_usage junk objects time_start time_stop period num_periods [] = some []
  eval_usage junk objects time_start time_stop period num_periods (u ∷ us) = do
    v ← eval_user junk (get (pos u.user_id) objects) time_start time_stop period num_periods u
    vs ← eval_usage junk objects time_start time_stop period num_periods us
    some (v ∷ vs)
