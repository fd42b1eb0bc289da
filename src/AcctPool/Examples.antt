-- ===== src/AcctPool/Examples.antt =====
-- Runs of src/xml/AcctPool.cc on concrete entries.
use mathlib.Core.Option
use one_fass.Base.{
  ℕ, ◌≤ℤ◌, ◌-ℤ◌, ◌*ℤ◌, ◌+ℤ◌, All, ℤ, pos, List, [], ◌∷◌, ◌≡◌, ◌≢◌, refl, some, none, arith, map,
}
use one_fass.StdMap.{Map, insert}
use one_fass.Floating.{whole, whole-IsRounded}
use one_fass.User.{User}
use one_fass.AcctPool.{AcctObject, Sums, eval_usage, get}
use one_fass.AcctPool.Integral.{with_integrals}
use one_fass.AcctPool.Evaluation.{Falls, eval_usage-integrals, eval_usage_overrun, eval_usage-Falls}

-- Two CPUs from 100 to 160, and one CPU from 150 on.
abbrev entry_1 : AcctObject ℤ
entry_1 = record {
  oid = pos 1;
  uid = pos 5;
  vmid = pos 11;
  memory = pos 10;
  cpu = pos 2;
  start_time = pos 100;
  stop_time = pos 160;
  static_vm = pos 0;
}

abbrev entry_2 : AcctObject ℤ
entry_2 = record {
  oid = pos 2;
  uid = pos 5;
  vmid = pos 12;
  memory = pos 20;
  cpu = pos 1;
  start_time = pos 150;
  stop_time = pos 0;
  static_vm = pos 0;
}

abbrev objects : Map ℤ (List (AcctObject ℤ))
objects = (pos 5, entry_1 ∷ entry_2 ∷ []) ∷ []

abbrev no_usage : ℕ → User ℤ
no_usage uid = record {
  user_id = uid;
  group_id = 1;
  share = pos 1;
  ttl = pos 0;
  cpu_usage = [];
  memory_usage = [];
}

abbrev users : List (User ℤ)
users = no_usage 5 ∷ no_usage 6 ∷ []

abbrev junk : Sums whole
junk = record { cpu = pos 77; mem = pos 78 }

eval_usage-integrals_example :
    eval_usage whole junk objects (pos 0) (pos 200) (pos 40) 3 users
    ≡ some (
        map
          (λ u.
            with_integrals whole (pos 0) (pos 200) (pos 40) 3 (get whole (pos u.user_id) objects) u)
          users)
eval_usage-integrals_example =
    eval_usage-integrals whole objects (pos 0) (pos 200) (pos 40) junk 3 users (omega arith)

users_some : users ≢ []
users_some e = ground arith

eval_usage_overrun_example : eval_usage whole junk objects (pos 0) (pos 200) (pos 40) 4 users ≡ none
eval_usage_overrun_example =
    eval_usage_overrun whole objects (pos 0) (pos 200) (pos 40) junk 4 users (omega arith)
      users_some

objects_nonneg : (uid : ℤ) → All (λ a. pos 0 ≤ℤ a.cpu) (get whole uid objects)
unfolding get
objects_nonneg uid = ground arith

eval_usage-Falls_example :
    All
      (λ v.
        Falls whole objects (pos 0) (pos 200) (pos 40) whole-IsRounded (omega arith) v.cpu_usage)
      (map
        (λ u.
          with_integrals whole (pos 0) (pos 200) (pos 40) 3 (get whole (pos u.user_id) objects) u)
        users)
eval_usage-Falls_example =
    eval_usage-Falls whole objects (pos 0) (pos 200) (pos 40) whole-IsRounded (omega arith) junk 3
      users
      (map
        (λ u.
          with_integrals whole (pos 0) (pos 200) (pos 40) 3 (get whole (pos u.user_id) objects) u)
        users)
      (omega arith) objects_nonneg (λ uid k. tt) eval_usage-integrals_example

-- The usage of the first user in the whole time and in the three shorter ones.
cpu_usage_test :
    Option.map
      (λ us. map (λ u. map (λ e. e.1.usage) u.cpu_usage) us)
      (eval_usage whole junk objects (pos 0) (pos 200) (pos 40) 3 users)
    ≡ some ((pos 170 ∷ pos 130 ∷ pos 40 ∷ pos 0 ∷ []) ∷ (pos 0 ∷ pos 0 ∷ pos 0 ∷ pos 0 ∷ []) ∷ [])
unfolding eval_usage users insert ◌-ℤ◌ ◌*ℤ◌ ◌+ℤ◌
cpu_usage_test = refl
