-- ===== src/Plugin/Priority.antt =====
-- The order of the priorities that `update_prio` gives, and when it gives one.
use one_fass.Base.{
  mono_*ℤ, negsuc, ◌∙◌, pos_part_sub_mono, sym, *ℤ_nonneg, *ℤ_mono, Bool-cases, ℕ, suc, ◌≤◌, ℤ, pos,
  ◌-ℤ◌, ◌*ℤ◌, ◌≤ℤ◌, ◌<ℤ◌, ◌==ℤ◌, ltb, false, some, ◌≡◌, arith, inl, inr, int_laws,
}
use one_fass.StdMap.{find}
use mathlib.Core.Option.{some-injective}
use one_fass.Floating.{Floating, whole}
use one_fass.User.{User}
use one_fass.Plugin.{BasicPlugin, half_life, factor, weigh, usage_at, fair_share, update_prio}

-- IEEE arithmetic rounds, so each operation keeps the order of its exact result, and no value on the
-- way is a NaN: `positive` and `nonneg` speak of numbers.
pub record IsOrdered (f : Floating) : Type 1 where
  pub lef : f.F → f.F → Type 0
  pub le : f.D → f.D → Type 0
  pub positive : f.D → Type 0
  pub nonneg : f.D → Type 0
  pub le_refl : (x : f.D) → le x x
  pub f_of_int_mono : (m n : ℤ) → m ≤ℤ n → lef (f.f_of_int m) (f.f_of_int n)
  pub f_add_mono : (x y u v : f.F) → lef x y → lef u v → lef (f.f_add x u) (f.f_add y v)
  pub half_mono : (x y : f.F) → lef x y → lef (f.f_mul f.half x) (f.f_mul f.half y)
  pub quarter_mono :
      (x y : f.F)
      → lef x y
      → lef (f.f_mul (f.f_mul f.half f.half) x) (f.f_mul (f.f_mul f.half f.half) y)
  pub widen_mono : (x y : f.F) → lef x y → le (f.widen x) (f.widen y)
  pub d_div_mono : (x y c : f.D) → positive c → le x y → le (f.d_div x c) (f.d_div y c)
  pub d_neg_antitone : (x y : f.D) → le x y → le (f.d_neg y) (f.d_neg x)
  pub pow2_mono : (x y : f.D) → le x y → le (f.pow2 x) (f.pow2 y)
  pub pow2_nonneg : (x : f.D) → nonneg (f.pow2 x)
  pub d_mul_mono : (x y c : f.D) → nonneg c → le x y → le (f.d_mul x c) (f.d_mul y c)
  pub mul_d_mono : (x y c : f.D) → nonneg c → le x y → le (f.d_mul c x) (f.d_mul c y)
  pub d_of_int_nonneg : (n : ℕ) → nonneg (f.d_of_int (pos n))
  pub inverse_nonneg :
      (n : ℕ)
      → nonneg (f.widen (f.narrow (f.d_div (f.d_of_int (pos 1)) (f.d_of_int (pos (suc n))))))
  pub inverse_antitone :
      (m n : ℕ)
      → m ≤ n
      → le
          (f.widen (f.narrow (f.d_div (f.d_of_int (pos 1)) (f.d_of_int (pos (suc n))))))
          (f.widen (f.narrow (f.d_div (f.d_of_int (pos 1)) (f.d_of_int (pos (suc m))))))

module _ (f : Floating) where
  -- The four readings of a user, and those of the totals.
  pub record Reads (u : User f.F) (h0 h1 h2 h3 : ℤ) : Type 0 where
    pub at_0 : usage_at f 0 u ≡ some h0
    pub at_1 : usage_at f 1 u ≡ some h1
    pub at_2 : usage_at f 2 u ≡ some h2
    pub at_3 : usage_at f 3 u ≡ some h3

  pub record Totals (p : BasicPlugin) (t0 t1 t2 t3 : ℤ) : Type 0 where
    pub at_0 : find ltb 0 p.tot_cpu ≡ some t0
    pub at_1 : find ltb 1 p.tot_cpu ≡ some t1
    pub at_2 : find ltb 2 p.tot_cpu ≡ some t2
    pub at_3 : find ltb 3 p.tot_cpu ≡ some t3

  -- With all eight readings at hand the fair-share algorithm gives this priority.
  fair_share_lem :
      (p : BasicPlugin) (oid : ℤ) (u : User f.F) {h0 h1 h2 h3 t0 t1 t2 t3 : ℤ}
      → Reads u h0 h1 h2 h3
      → Totals p t0 t1 t2 t3
      → fair_share f p oid u
        ≡ some (weigh f oid (factor f (half_life f h0 h1 h2 h3) (half_life f t0 t1 t2 t3) u.share))
  unfolding fair_share
  fair_share_lem p oid u r t = rw (r.at_0, r.at_1, r.at_2, r.at_3, t.at_0, t.at_1, t.at_2, t.at_3)

  module _ (laws : IsOrdered f) where
    open laws use {le, positive, nonneg}

    half_life_mono :
        (g0 g1 g2 g3 h0 h1 h2 h3 : ℤ)
        → g0 -ℤ g1 ≤ℤ h0 -ℤ h1
        → g1 -ℤ g2 ≤ℤ h1 -ℤ h2
        → g2 -ℤ g3 ≤ℤ h2 -ℤ h3
        → le (half_life f g0 g1 g2 g3) (half_life f h0 h1 h2 h3)
    unfolding half_life
    half_life_mono g0 g1 g2 g3 h0 h1 h2 h3 a b c = laws.widen_mono _ _ (
        laws.f_add_mono _ _ _ _
          (laws.f_add_mono _ _ _ _ (laws.f_of_int_mono _ _ a)
            (laws.half_mono _ _ (laws.f_of_int_mono _ _ b)))
          (laws.quarter_mono _ _ (laws.f_of_int_mono _ _ c)))

    factor_antitone :
        (g h t : f.D) (share : f.F)
        → positive t
        → positive (f.widen share)
        → le g h
        → le (factor f h t share) (factor f g t share)
    unfolding factor
    factor_antitone g h t share pt ps l = elim (Bool-cases (f.d_is_zero t)) [
      | inl z ↦ rw (z, factor) (laws.le_refl _)
      | inr nz ↦
          rw (nz, factor)
            (laws.pow2_mono _ _
              (laws.d_neg_antitone _ _ (laws.d_div_mono _ _ _ ps (laws.d_div_mono _ _ _ pt l))))
    ]

    -- The fair-share order, when the debug flag is not 0: of two users with the same share, the one
    -- whose CPU usage grew no less in each of the three last periods gets no higher a priority for a VM
    -- of the same id, which is positive, if the share and the half-life total are positive and the four
    -- periods of both users and of the totals are there.
    pub update_prio_fair :
        (p : BasicPlugin) (n : ℕ) (u v : User f.F) (debug : ℤ)
        → {g0 g1 g2 g3 h0 h1 h2 h3 t0 t1 t2 t3 : ℤ} {x y : f.D} → (debug ==ℤ pos 0) ≡ false
        → Reads u g0 g1 g2 g3
        → Reads v h0 h1 h2 h3
        → Totals p t0 t1 t2 t3
        → u.share ≡ v.share
        → positive (f.widen v.share)
        → positive (half_life f t0 t1 t2 t3)
        → g0 -ℤ g1 ≤ℤ h0 -ℤ h1
        → g1 -ℤ g2 ≤ℤ h1 -ℤ h2
        → g2 -ℤ g3 ≤ℤ h2 -ℤ h3
        → update_prio f p (pos (suc n)) u debug ≡ some x
        → update_prio f p (pos (suc n)) v debug ≡ some y
        → le y x
    unfolding update_prio weigh
    update_prio_fair p n u v debug d ru rv t same ps pt a b c ex ey =
        let ux = some-injective _ _ (sym (fair_share_lem p (pos (suc n)) u ru t) ∙ (rw d at ex)) in
        let vy = some-injective _ _ (sym (fair_share_lem p (pos (suc n)) v rv t) ∙ (rw d at ey)) in
        rw (← ux, ← vy, same)
          (laws.d_mul_mono _ _ _ (laws.d_of_int_nonneg _) (
            laws.d_mul_mono _ _ _ (laws.inverse_nonneg n)
              (factor_antitone _ _ _ _ pt ps (half_life_mono _ _ _ _ _ _ _ _ a b c))))

    -- Seniority, when the debug flag is not 0: for two VMs of one user, the one with the smaller id,
    -- which is the older one, gets no lower a priority, if the ids are positive and the four periods of
    -- the user and of the totals are there.
    pub update_prio_senior :
        (p : BasicPlugin) (m n : ℕ) (u : User f.F) (debug : ℤ)
        → {h0 h1 h2 h3 t0 t1 t2 t3 : ℤ} {x y : f.D} → (debug ==ℤ pos 0) ≡ false
        → Reads u h0 h1 h2 h3
        → Totals p t0 t1 t2 t3
        → m ≤ n
        → update_prio f p (pos (suc m)) u debug ≡ some x
        → update_prio f p (pos (suc n)) u debug ≡ some y
        → le y x
    unfolding update_prio weigh factor
    update_prio_senior p m n u debug d r t h ex ey =
        let x' = some-injective _ _ (sym (fair_share_lem p (pos (suc m)) u r t) ∙ (rw d at ex)) in
        let y' = some-injective _ _ (sym (fair_share_lem p (pos (suc n)) u r t) ∙ (rw d at ey)) in
        rw (← x', ← y')
          (laws.d_mul_mono _ _ _ (laws.d_of_int_nonneg _)
            (laws.mul_d_mono _ _ _ (laws.pow2_nonneg _) (laws.inverse_antitone m n h)))

abbrev pub whole-IsOrdered : IsOrdered whole
whole-IsOrdered = record {
  lef = ◌≤ℤ◌;
  le = ◌≤ℤ◌;
  positive = λ x. pos 0 <ℤ x;
  nonneg = λ x. pos 0 ≤ℤ x;
  le_refl = λ x. omega arith;
  f_of_int_mono = λ m n h. h;
  f_add_mono = λ x y u v h k. omega int_laws;
  half_mono = λ x y h. *ℤ_mono (pos 1) x y (omega arith) h;
  quarter_mono = λ x y h.
      *ℤ_mono (pos 1 *ℤ pos 1) x y (*ℤ_nonneg (pos 1) (pos 1) (omega arith) (omega arith)) h;
  widen_mono = λ x y h. h;
  d_div_mono = λ x y c p h. h;
  d_neg_antitone = λ x y h. omega int_laws;
  pow2_mono = λ x y h. omega (arith, pos_part_sub_mono x y (negsuc 999) h);
  pow2_nonneg = λ x. omega arith;
  d_mul_mono = λ x y c p h. mono_*ℤ c x y p h;
  mul_d_mono = λ x y c p h. *ℤ_mono c x y p h;
  d_of_int_nonneg = λ n. omega arith;
  inverse_nonneg = λ n. omega arith;
  inverse_antitone = λ m n h. omega arith;
}
