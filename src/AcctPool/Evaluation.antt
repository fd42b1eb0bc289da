-- ===== src/AcctPool/Evaluation.antt =====
-- `eval_usage` for the whole list of users: the closed form, its one failure, and the order of the
-- periods, on which the differences between neighbours in `update_prio` rest.
use mathlib.Core.List.{foldl}
use mathlib.Core.Path.{subst}
use mathlib.Core.Option.{some-injective}
use one_fass.StdMap.Entries.{find-entries_value}
use one_fass.Base.{◌+◌, sym, ◌∙◌}
use one_fass.Base.{
  ℕ, lt→ltb, sym, ◌∙◌, pos_part_sub_mono, if◌then◌else◌, *ℤ_mono_left, -ℤ_antitone, zero, suc, ◌≤◌,
  ◌<◌, ℤ, pos, ◌≤ℤ◌, ◌≡◌, ◌≢◌, refl, arith, List, [], ◌∷◌, map, none, some, All, ltb,
}
use one_fass.StdMap.{Map, find}
use one_fass.Floating.{Floating, IsRounded}
use one_fass.User.{User, Usage}
use one_fass.AcctPool.{AcctObject, Sums, get, eval_usage}
use one_fass.AcctPool.Integral.{
  cpu_integral, max_ℤ, end_of, seconds, end_of_period, add_cpu_seconds, with_integrals,
  eval_user_lem, eval_user_overrun,
}

module _ (f : Floating) (objects : Map ℤ (List (AcctObject f.F)))
    (time_start time_stop period : ℤ) where
  abbrev entries_of : User f.F → List (AcctObject f.F)
  entries_of u = get f (pos u.user_id) objects

  -- With at most three periods `eval_usage` gives every user, in order, the time integrals of the
  -- CPUs and the memory of the user's own accounting entries, in `num_periods + 1` records that each
  -- bear `time_start` and `time_stop`; nothing else of a user changes.
  pub eval_usage-integrals :
      (junk : Sums f) (num_periods : ℕ) (us : List (User f.F))
      → num_periods ≤ 3
      → eval_usage f junk objects time_start time_stop period num_periods us
        ≡ some (
            map
              (λ u.
                with_integrals f time_start time_stop period num_periods
                  (get f (pos u.user_id) objects)
                  u)
              us)
  unfolding eval_usage
  eval_usage-integrals junk num_periods [] h = refl
  eval_usage-integrals junk num_periods (u ∷ us) h = rw (
    eval_user_lem f time_start time_stop period junk (entries_of u) num_periods u h,
    eval_usage-integrals junk num_periods us h,
  )

  -- With more than three periods and at least one user, `eval_usage` writes behind the end of its
  -- arrays of four, whatever the accounting entries are.
  pub eval_usage_overrun :
      (junk : Sums f) (num_periods : ℕ) (us : List (User f.F))
      → 3 < num_periods
      → us ≢ []
      → eval_usage f junk objects time_start time_stop period num_periods us ≡ none
  unfolding eval_usage
  eval_usage_overrun junk num_periods [] h ne = absurd (ne refl)
  eval_usage_overrun junk num_periods (u ∷ us) h ne =
      rw (eval_user_overrun f time_start time_stop period junk (entries_of u) num_periods u h)

  module _ (laws : IsRounded f) (period_nonneg : pos 0 ≤ℤ period) where
    open laws use {le, in_range, nonneg}

    end_of_period-antitone :
        (j k : ℕ)
        → j ≤ k
        → end_of_period f time_start time_stop period k
          ≤ℤ end_of_period f time_start time_stop period j
    end_of_period-antitone j k h =
        -ℤ_antitone time_stop _ _ (*ℤ_mono_left j k period h period_nonneg)

    end_of_mono : (s t : ℤ) (a : AcctObject f.F) → s ≤ℤ t → end_of a s ≤ℤ end_of a t
    end_of_mono s t a h = ground arith

    seconds_mono :
        (s t : ℤ) (a : AcctObject f.F) → s ≤ℤ t → seconds time_start s a ≤ seconds time_start t a
    seconds_mono s t a h =
        pos_part_sub_mono (end_of a s) (end_of a t) (max_ℤ a.start_time time_start)
          (end_of_mono s t a h)

    add_seconds_mono :
        (m n : ℕ) (x y : f.D) (c : f.F)
        → m ≤ n
        → nonneg c
        → le x y
        → le
            (if ltb 0 m then f.d_add x (f.widen (f.f_mul c (f.f_of_int (pos m)))) else x)
            (if ltb 0 n then f.d_add y (f.widen (f.f_mul c (f.f_of_int (pos n)))) else y)
    add_seconds_mono zero zero x y c h p l = l
    add_seconds_mono zero (suc n) x y c h p l =
        rw (lt→ltb 0 (suc n) (omega arith)) (laws.le-d_add x y c (pos (suc n)) l p (omega arith))
    add_seconds_mono (suc m) zero x y c h p l = elim h [ ]
    add_seconds_mono (suc m) (suc n) x y c h p l =
        rw (lt→ltb 0 (suc m) (omega arith), lt→ltb 0 (suc n) (omega arith))
          (laws.d_add_mono _ _ _ _ l
            (laws.scale_mono c (pos (suc m)) (pos (suc n)) p (omega arith)))

    cpu_integral-antitone :
        (j k : ℕ) (l : List (AcctObject f.F)) (x y : f.D)
        → j ≤ k
        → All (λ a. nonneg a.cpu) l
        → le x y
        → le
            (foldl (add_cpu_seconds f time_start time_stop period k) x l)
            (foldl (add_cpu_seconds f time_start time_stop period j) y l)
    cpu_integral-antitone j k [] x y h n e = e
    cpu_integral-antitone j k (a ∷ l) x y h (n, ns) e =
        cpu_integral-antitone j k l _ _ h ns
          (add_seconds_mono _ _ x y a.cpu (seconds_mono _ _ a (end_of_period-antitone j k h)) n e)

    -- The CPU usage in a map does not grow with the number of the period.
    abbrev pub Falls : Map ℕ Usage → Type 0
    Falls m =
        (j k : ℕ) (x y : Usage)
        → j ≤ k
        → find ltb j m ≡ some x
        → find ltb k m ≡ some y
        → y.usage ≤ℤ x.usage

    with_integrals-Falls :
        (num_periods : ℕ) (l : List (AcctObject f.F)) (u : User f.F)
        → All (λ a. nonneg a.cpu) l
        → ((k : ℕ) → in_range (cpu_integral f time_start time_stop period k l))
        → Falls (with_integrals f time_start time_stop period num_periods l u).cpu_usage
    with_integrals-Falls num_periods l u p r j k x y h ex ey =
        rw
          (
            find-entries_value (num_periods + 1) 0 j _ x ex,
            find-entries_value (num_periods + 1) 0 k _ y ey,
          )
          (laws.d_to_int_mono _ _ (r k) (r j)
            (cpu_integral-antitone j k l _ _ h p (laws.le_refl _)))

    -- If there are at most three periods, of no negative length, no entry has a negative number of
    -- CPUs, each integral fits an `int64_t`, and arithmetic rounds to nearest, the CPU usage of
    -- every user falls from each period to the later ones: no difference between two of them that
    -- `update_prio` takes is negative.
    pub eval_usage-Falls :
        (junk : Sums f) (num_periods : ℕ) (us vs : List (User f.F))
        → num_periods ≤ 3
        → ((uid : ℤ) → All (λ a. nonneg a.cpu) (get f uid objects))
        → ((uid : ℤ) (k : ℕ)
            → in_range (cpu_integral f time_start time_stop period k (get f uid objects)))
        → eval_usage f junk objects time_start time_stop period num_periods us ≡ some vs
        → All (λ v. Falls v.cpu_usage) vs
    eval_usage-Falls junk num_periods us vs h p r e =
        subst (All (λ v. Falls v.cpu_usage))
          (some-injective _ _ (sym (eval_usage-integrals junk num_periods us h) ∙ e)) (all us)
      where
        all :
            (us : List (User f.F))
            → All
                (λ v. Falls v.cpu_usage)
                (map
                  (λ u.
                    with_integrals f time_start time_stop period num_periods
                      (get f (pos u.user_id) objects)
                      u)
                  us)
        all [] = tt
        all (u ∷ us) = (
          with_integrals-Falls num_periods (entries_of u) u (p (pos u.user_id)) (r (pos u.user_id)),
          all us,
        )
