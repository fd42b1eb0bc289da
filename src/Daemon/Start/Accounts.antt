-- ===== src/Daemon/Start/Accounts.antt =====
-- From the sections of shares.conf to the users of the managers.
use mathlib.Core.Path.{subst}
use one_fass.Base.{
  false, pos, true, some, List, [], ◌∷◌, map, ◌≡◌, refl, All, sym, ap, ◌∙◌, inl, inr,
}
use one_fass.Outcome.{done, done-injective}
use one_fass.Floating.{Floating}
use one_fass.Boost.{Boost, IsBoost}
use one_fass.Config.{PropertyTree, load_shares}
use one_fass.Config.Shares.{Section, entry_of, users_of, HasSection, load_shares-entries}
use one_fass.PriorityManager.Shares.{
  Account, IsReadable, entry, weights, user_of, calculate_initial_shares-entries, parse_user-entry,
}
use one_fass.PriorityManager.{calculate_initial_shares}
use one_fass.Terminator.Loop.{parse_user}
use one_fass.Daemon.Managers.{PmObject, TmObject}
use one_fass.Daemon.Start.{World, Fass}
use one_fass.Daemon.Start.Stages.{start}
use one_fass.Daemon.Start.Order.{start-Ended}

module _ (f : Floating) (b : Boost f.F) where
  abbrev pub sections : List (Account f.F) → List Section
  sections = map (λ a. a.section)

  entries_map :
      (accounts : List (Account f.F)) → map entry_of (sections accounts) ≡ map (entry f b) accounts
  entries_map [] = refl
  entries_map (a ∷ accounts) = ap (λ es. entry_of a.section ∷ es) (entries_map accounts)

  -- The managers have the accounts.
  abbrev pub Arrived : List (Account f.F) → Fass f.F → Type 0
  Arrived accounts s =
      (pm : PmObject f.F) × (tm : TmObject) × (s.pm ≡ some pm)
      × (s.tm ≡ some tm)
      × (pm.user_list ≡ map (user_of f b (weights f b accounts (pos 0))) accounts)
      × (map (parse_user b) tm.users ≡ map (λ a. done (a.uid, a.ttl)) accounts)

  module _ (laws : IsBoost b) where
    parsed_map :
        (accounts : List (Account f.F))
        → All (IsReadable f b) accounts
        → map (parse_user b) (map (entry f b) accounts) ≡ map (λ a. done (a.uid, a.ttl)) accounts
    parsed_map [] h = refl
    parsed_map (a ∷ accounts) (r, h) =
        rw (parse_user-entry f b laws a r, parsed_map accounts h) refl

    module _ (w : World) (pt : PropertyTree) (accounts : List (Account f.F)) where
      pub shares_read :
          w.shares_conf ≡ some pt
          → pt.sections ≡ users_of (sections accounts)
          → All (HasSection pt) (sections accounts)
          → load_shares false w.shares_conf [] ≡ done (true, map (entry f b) accounts)
      shares_read file order has =
          rw file (load_shares-entries false pt (sections accounts) [] order has)
          ∙ ap (λ es. done (true, es)) (entries_map accounts)

      -- The accounts that are written to shares.conf are read back: when the start comes to its end,
      -- the priority manager has a user for each account, in order, with the share divided by the sum
      -- of all, and from the entries that the terminator has it reads the user id and the time to
      -- live of each account. No text of an account holds a colon, and each can be cast. That splitting
      -- undoes joining is what boost documents.
      pub start-Arrived :
          w.shares_conf ≡ some pt
          → pt.sections ≡ users_of (sections accounts)
          → All (HasSection pt) (sections accounts)
          → All (IsReadable f b) accounts
          → {s : Fass f.F} → (start f b w).1 ≡ done s
          → Arrived accounts s
      start-Arrived file order has readable e = elim (start-Ended f b w) [
        | inr (failed, partly) ↦ absurd (failed _ e)
        | inl
              (
                same,
                (
                  pm,
                  tm,
                  (pm_is, shares, client, users, loaded),
                  (tm_is, entries, one),
                  threads,
                  held,
                ),
                made,
                fd,
              ) ↦
            let read =
              ap (λ r. r.1) (done-injective _ _ (sym loaded ∙ shares_read file order has)) in
            let made = calculate_initial_shares-entries f b laws accounts w.timestamp [] readable in
            subst (Arrived accounts) (done-injective _ _ (sym same ∙ e)) (
              pm,
              tm,
              pm_is,
              tm_is,
              ap (λ r. r.0)
                  (done-injective _ _ (
                    sym users
                    ∙ ap (λ es. calculate_initial_shares f b es w.timestamp []) read
                    ∙ made)),
              ap (map (parse_user b)) (entries ∙ read) ∙ parsed_map accounts readable,
            )
      ]
