-- ===== src/PriorityManager.antt =====
-- src/pm/PriorityManager.cc and include/PriorityManager.h: the users with their shares, the priorities
-- of the pending VMs, and the queue made of them.
pub mod Shares
pub mod Ranking
pub mod Ties
pub mod Cycle
pub mod Queue
pub mod Round
mod Examples
use one_fass.Base.{
  ℕ, zero, suc, ◌+◌, ℤ, pos, negsuc, ◌+ℤ◌, ◌-ℤ◌, ◌*ℤ◌, ◌==ℤ◌, ◌==◌, to_ushort, Bool, Option, none,
  some, List, [], ◌∷◌, ◌++◌, map, length, if◌then◌else◌,
}
use one_fass.Text.{Text, codes}
use one_fass.Outcome.{Outcome, done, throws, faults, ◌>>=◌, or_throw, or_fault, element}
use one_fass.StdMap
use one_fass.StdMap.{Map}
use one_fass.Floating.{Floating}
use one_fass.Boost.{Boost}
use one_fass.Text.Decimal.{dec_ℕ}
use one_fass.Database.{share_point}
use one_fass.User.{User, new_user}
use one_fass.Xml.{LibXml}
use one_fass.Xml.VmObject.{VmObject}
use one_fass.VmPool.{Pool}
use one_fass.Plugin.{BasicPlugin, evaluate_total_usage, update_prio}

module _ (f : Floating) (b : Boost f.F) where
  open f use {F, f_of_int, f_div, f_stream}
  open b use {split, cast_int16, cast_int64, cast_float}

  -- `make_user`: an entry without five tokens meets a `throw` with nothing to throw.
  unfoldable pub make_user : Text → ℤ → Outcome (User F)
  make_user user_group_share sum =
      let tokens = split b':' user_group_share in
      let made : Outcome (User F) = do
        uid_token ← element 1 tokens
        uid ← or_throw (cast_int16 uid_token)
        gid_token ← element 2 tokens
        gid ← or_throw (cast_int16 gid_token)
        share_token ← element 3 tokens
        share ← or_throw (cast_float share_token)
        ttl_token ← element 4 tokens
        ttl ← or_throw (cast_int64 ttl_token)
        done (new_user (to_ushort uid) (to_ushort gid) (f_div share (f_of_int sum)) ttl)
      in if length tokens == 5 then made else throws

  -- The first loop of `calculate_initial_shares`.
  unfoldable pub sum_shares : List Text → ℤ → Outcome ℤ
  sum_shares [] sum = done sum
  sum_shares (entry ∷ shares) sum = do
    token ← element 3 (split b':' entry)
    share ← or_throw (cast_int16 token)
    sum_shares shares (sum +ℤ share)

  unfoldable pub make_users : List Text → ℤ → Outcome (List (User F))
  make_users [] sum = done []
  make_users (entry ∷ shares) sum = do
    u ← make_user entry sum
    us ← make_users shares sum
    done (u ∷ us)

  -- What is written to the database for a new user.
  unfoldable pub initial_point : ℤ → User F → Text
  unfolding share_point
  initial_point timestamp us =
      share_point (f_stream us.share) (dec_ℕ us.user_id) (dec_ℕ us.group_id) us.ttl timestamp

  -- The users are appended to the list that is there; the texts are what is written, in order.
  unfoldable pub calculate_initial_shares :
      List Text → ℤ → List (User F) → Outcome (List (User F) × List Text)
  unfolding sum_shares make_users
  calculate_initial_shares shares timestamp user_list = do
    sum ← sum_shares shares (pos 0)
    us ← make_users shares sum
    done (user_list ++ us, map (initial_point timestamp) us)

module _ (f : Floating) (x : LibXml) where
  open f use {F, D, narrow, f_gt}

  -- The last user with the id, or else the user that `User user;` makes.
  pub find_user : ℤ → List (User F) → User F → User F
  find_user uid [] user = user
  find_user uid (u ∷ us) user = find_user uid us (if pos u.user_id ==ℤ uid then u else user)

  -- `map<float, int, std::greater<float>>`
  abbrev pub Priorities : Type 0
  Priorities = Map F ℤ

  -- The loop of `do_prioritize`; `blank` is the user of indeterminate numbers and no usage.
  pub prioritize :
      BasicPlugin → List (User F) → User F → ℤ → Pool f x → Priorities → Outcome Priorities
  unfolding find_user
  prioritize plugin user_list blank plugin_debug [] priorities = done priorities
  prioritize plugin user_list blank plugin_debug ((key, vm) ∷ vms) priorities = do
    vm_prio ← or_fault (update_prio f plugin vm.oid (find_user vm.uid user_list blank) plugin_debug)
    prioritize plugin user_list blank plugin_debug vms
        (StdMap.insert f_gt (narrow vm_prio) vm.oid priorities)

  pub do_prioritize : List (User F) → User F → ℤ → Pool f x → Priorities → Outcome Priorities
  unfolding prioritize
  do_prioritize user_list blank plugin_debug pending_vms priorities =
      prioritize (evaluate_total_usage user_list) user_list blank plugin_debug pending_vms
        priorities
