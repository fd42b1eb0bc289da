-- ===== src/Plugin.antt =====
-- src/pm/BasicPlugin.cc and include/BasicPlugin.h: the priority of one pending VM.
pub mod Totals
pub mod Priority
pub mod Sample
mod Examples
use mathlib.Core.Option
use one_fass.Base.{
  ℕ, zero, suc, ◌+◌, ℤ, pos, ◌+ℤ◌, ◌-ℤ◌, ◌==ℤ◌, ltb, Option, none, some, List, [], ◌∷◌,
  if◌then◌else◌,
}
use one_fass.StdMap.{Map, find, insert}
use one_fass.Floating.{Floating}
use one_fass.User.{User, Usage}
use one_fass.AcctPool.{◌>>=◌}

pub record BasicPlugin : Type 0 where
  pub tot_cpu : Map ℕ ℤ
  pub tot_mem : Map ℕ ℤ

-- The loop over the periods of one user, counted from `count`: a total that is there is read, and the
-- sum is inserted, which for a key that is there does nothing.
add_usages : ℕ → Map ℕ Usage → Map ℕ ℤ → Map ℕ ℤ
add_usages count [] tot = tot
add_usages count ((period, u) ∷ m) tot =
    let tmp : ℤ = elim (find ltb count tot) [ none ↦ u.usage | some t ↦ t +ℤ u.usage ] in
    add_usages (suc count) m (insert ltb count tmp tot)

module _ {F : Type 0} where
  add_users : List (User F) → BasicPlugin → BasicPlugin
  unfolding add_usages
  add_users [] p = p
  add_users (u ∷ us) p = add_users us (record {
    tot_cpu = add_usages 0 u.cpu_usage p.tot_cpu;
    tot_mem = add_usages 0 u.memory_usage p.tot_mem;
  })

  pub evaluate_total_usage : List (User F) → BasicPlugin
  unfolding add_users
  evaluate_total_usage us = add_users us (record { tot_cpu = []; tot_mem = [] })

module _ (f : Floating) where
  open f use {
    F, D, f_of_int, half, f_add, f_mul, d_of_int, widen, narrow, d_mul, d_div, d_neg, d_is_zero,
    pow2,
  }

  -- `(h0 - h1) + decay * (h1 - h2) + decay * decay * (h2 - h3)`, in floats, read as a double.
  pub half_life : ℤ → ℤ → ℤ → ℤ → D
  half_life h0 h1 h2 h3 = widen (
      f_add (f_add (f_of_int (h0 -ℤ h1)) (f_mul half (f_of_int (h1 -ℤ h2))))
        (f_mul (f_mul half half) (f_of_int (h2 -ℤ h3))))

  -- The fair-share factor, and the priority made from it.
  factor : D → D → F → D
  factor h t share =
      let ratio = if d_is_zero t then d_of_int (pos 0) else d_div h t in
      pow2 (d_neg (d_div ratio (widen share)))

  weigh : ℤ → D → D
  weigh oid prio =
      d_mul (d_mul prio (widen (narrow (d_div (d_of_int (pos 1)) (d_of_int oid)))))
        (d_of_int (pos 1_000_000_000_000))

  pub usage_at : ℕ → User F → Option ℤ
  usage_at k user = Option.map (λ u. u.usage) (find ltb k user.cpu_usage)

  fair_share : BasicPlugin → ℤ → User F → Option D
  unfolding half_life factor weigh usage_at
  fair_share p oid user = do
    h0 ← usage_at 0 user
    h1 ← usage_at 1 user
    h2 ← usage_at 2 user
    h3 ← usage_at 3 user
    t0 ← find ltb 0 p.tot_cpu
    t1 ← find ltb 1 p.tot_cpu
    t2 ← find ltb 2 p.tot_cpu
    t3 ← find ltb 3 p.tot_cpu
    some (weigh oid (factor (half_life h0 h1 h2 h3) (half_life t0 t1 t2 t3) user.share))

  -- `none` is a read through the iterator `end()`: a period that the user or the totals do not have.
  pub update_prio : BasicPlugin → ℤ → User F → ℤ → Option D
  unfolding fair_share
  update_prio p oid user debug_flag =
      if debug_flag ==ℤ pos 0 then some (d_of_int oid) else fair_share p oid user
