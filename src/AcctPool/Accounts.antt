-- ===== src/AcctPool/Accounts.antt =====
-- What `eval_usage` leaves as it is: the accounts of the users.
use one_fass.Base.{
  ◌+◌, ℕ, zero, suc, ℤ, pos, none, some, List, [], ◌∷◌, map, ◌≡◌, refl, sym, ap, ◌∙◌, Option,
}
use mathlib.Core.Option.{some-injective}
use one_fass.StdMap.{Map}
use one_fass.Floating.{Floating}
use one_fass.User.{User, set_cpu_usage, set_memory_usage, flush_usage}
use one_fass.AcctPool.{
  stack, AcctObject, Sums, get, store, eval_user, eval_usage, sweep, add_entries,
}

-- Inversion of a bind that gives a value.
some_inv :
    {A B : Type 0} (o : Option A) (g : A → Option B) {b : B}
    → one_fass.AcctPool.◌>>=◌ o g ≡ some b
    → (a : A) × (o ≡ some a) × (g a ≡ some b)
some_inv none g e = cc
some_inv (some a) g e = (a, refl, e)

module _ (f : Floating) where
  -- The ids, the share and the time to live.
  abbrev pub account : User f.F → ℕ × ℕ × f.F × ℤ
  account u = (u.user_id, u.group_id, u.share, u.ttl)

  store-account :
      (time_start time_stop : ℤ) (n k : ℕ) (sums : List (Sums f)) (u : User f.F) {v : User f.F}
      → store f time_start time_stop n k sums u ≡ some v
      → account v ≡ account u
  unfolding store set_cpu_usage set_memory_usage
  store-account time_start time_stop zero k sums u e = ap account (sym (some-injective _ _ e))
  store-account time_start time_stop (suc n) k [] u e = cc
  store-account time_start time_stop (suc n) k (s ∷ sums) u e =
      store-account time_start time_stop n (suc k) sums _ e

  eval_user-account :
      (junk : Sums f) (l : List (AcctObject f.F)) (time_start time_stop period : ℤ) (n : ℕ)
      (u : User f.F) {v : User f.F}
      → eval_user f junk l time_start time_stop period n u ≡ some v
      → account v ≡ account u
  unfolding eval_user flush_usage
  eval_user-account junk l time_start time_stop period n u e =
      let zeros : Sums f = record { cpu = f.d_of_int (pos 0); mem = f.d_of_int (pos 0) } in
      let (cleared, e0, r0) = some_inv (sweep (λ k s. zeros) (n + 1) 0 (stack f junk)) _ e in
      let (sums, e1, r1) =
        some_inv (add_entries f time_start time_stop period (n + 1) l cleared) _ r0 in
      store-account time_start time_stop (n + 1) 0 sums (flush_usage u) r1

  pub eval_usage-accounts :
      (junk : Sums f) (objects : Map ℤ (List (AcctObject f.F))) (time_start time_stop period : ℤ)
      (n : ℕ) (us : List (User f.F)) {vs : List (User f.F)}
      → eval_usage f junk objects time_start time_stop period n us ≡ some vs
      → map account vs ≡ map account us
  unfolding eval_usage
  eval_usage-accounts junk objects time_start time_stop period n [] e =
      ap (map account) (sym (some-injective _ _ e))
  eval_usage-accounts junk objects time_start time_stop period n (u ∷ us) e =
      let (v, e0, r0) =
        some_inv (eval_user f junk (get f (pos u.user_id) objects) time_start time_stop period n u)
          _ e in
      let (vs, e1, r1) =
        some_inv (eval_usage f junk objects time_start time_stop period n us) _ r0 in
      let one =
        eval_user-account junk (get f (pos u.user_id) objects) time_start time_stop period n u e0 in
      let more = eval_usage-accounts junk objects time_start time_stop period n us e1 in
      ap (map account) (sym (some-injective _ _ r1)) ∙ rw (one, more) refl
