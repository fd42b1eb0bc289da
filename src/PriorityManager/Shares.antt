-- ===== src/PriorityManager/Shares.antt =====
-- From the sections of shares.conf to the users of the priority manager and the times to live of the
-- terminator.
pub mod Sample
use one_fass.Base.{ℤ, pos, ◌+ℤ◌, to_ushort, some, List, [], ◌∷◌, ◌++◌, map, ◌≡◌, refl, All}
use one_fass.Text.{Text}
use one_fass.Text.Split.{Lacks}
use one_fass.Outcome.{done}
use one_fass.Floating.{Floating}
use one_fass.Boost.{Boost, IsBoost}
use one_fass.User.{User, new_user}
use one_fass.Config.Shares.{Section, entry_of}
use one_fass.PriorityManager.{
  initial_point, calculate_initial_shares, sum_shares, make_users, make_user,
}
use one_fass.Terminator.Loop.{parse_user}

-- A section with the numbers that its texts stand for. The share is read twice, as an integer for the
-- sum and as a float.
pub record Account (F : Type 0) : Type 0 where
  pub section : Section
  pub uid : ℤ
  pub gid : ℤ
  pub weight : ℤ
  pub share : F
  pub ttl : ℤ

module _ (f : Floating) (b : Boost f.F) where
  abbrev pub HasNoColon : Section → Type 0
  HasNoColon s = All (Lacks b':') (s.user ∷ s.uid ∷ s.gid ∷ s.share ∷ s.ttl ∷ [])

  pub record IsReadable (a : Account f.F) : Type 0 where
    pub plain : HasNoColon a.section
    pub uid_read : b.cast_int16 a.section.uid ≡ some a.uid
    pub gid_read : b.cast_int16 a.section.gid ≡ some a.gid
    pub weight_read : b.cast_int16 a.section.share ≡ some a.weight
    pub share_read : b.cast_float a.section.share ≡ some a.share
    pub ttl_read : b.cast_int64 a.section.ttl ≡ some a.ttl

  abbrev pub entry : Account f.F → Text
  entry a = entry_of a.section

  abbrev pub weights : List (Account f.F) → ℤ → ℤ
  weights [] sum = sum
  weights (a ∷ accounts) sum = weights accounts (sum +ℤ a.weight)

  -- The user of an account, with the share divided by the sum of all.
  abbrev pub user_of : ℤ → Account f.F → User f.F
  unfolding new_user
  user_of sum a =
      new_user (to_ushort a.uid) (to_ushort a.gid) (f.f_div a.share (f.f_of_int sum)) a.ttl

  module _ (laws : IsBoost b) where
    split_entry :
        (s : Section)
        → HasNoColon s
        → b.split b':' (entry_of s) ≡ s.user ∷ s.uid ∷ s.gid ∷ s.share ∷ s.ttl ∷ []
    split_entry s (user, rest) =
        laws.split_joined b':' s.user (s.uid ∷ s.gid ∷ s.share ∷ s.ttl ∷ []) user rest

    make_user-entry :
        (a : Account f.F) (sum : ℤ)
        → IsReadable a
        → make_user f b (entry a) sum ≡ done (user_of sum a)
    unfolding make_user new_user user_of
    make_user-entry a sum r =
        rw (split_entry a.section r.plain, r.uid_read, r.gid_read, r.share_read, r.ttl_read)

    sum_shares_entries :
        (accounts : List (Account f.F)) (sum : ℤ)
        → All IsReadable accounts
        → sum_shares f b (map entry accounts) sum ≡ done (weights accounts sum)
    unfolding sum_shares
    sum_shares_entries [] sum h = refl
    sum_shares_entries (a ∷ accounts) sum (r, h) =
        rw (split_entry a.section r.plain, r.weight_read)
          (sum_shares_entries accounts (sum +ℤ a.weight) h)

    make_users_entries :
        (accounts : List (Account f.F)) (sum : ℤ)
        → All IsReadable accounts
        → make_users f b (map entry accounts) sum ≡ done (map (user_of sum) accounts)
    unfolding make_users
    make_users_entries [] sum h = refl
    make_users_entries (a ∷ accounts) sum (r, h) =
        rw (make_user-entry a sum r, make_users_entries accounts sum h)

    -- The entries of sections whose texts hold no colon and can be cast give, in order, a user
    -- each, with the ids cut to 16 bits, the share divided by the sum of all shares, the time to
    -- live, and no usage; one record is written to the database for each of them. That splitting
    -- undoes joining is what boost documents.
    pub calculate_initial_shares-entries :
        (accounts : List (Account f.F)) (timestamp : ℤ) (user_list : List (User f.F))
        → All IsReadable accounts
        → let us = map (user_of (weights accounts (pos 0))) accounts in
          calculate_initial_shares f b (map entry accounts) timestamp user_list
          ≡ done (user_list ++ us, map (initial_point f b timestamp) us)
    unfolding calculate_initial_shares
    calculate_initial_shares-entries accounts timestamp user_list h =
        rw (sum_shares_entries accounts (pos 0) h, make_users_entries accounts _ h)

    -- The terminator reads the user id and the time to live of such an entry that the priority manager
    -- reads.
    pub parse_user-entry :
        (a : Account f.F) → IsReadable a → parse_user b (entry a) ≡ done (a.uid, a.ttl)
    unfolding parse_user
    parse_user-entry a r = rw (split_entry a.section r.plain, r.uid_read, r.ttl_read)
