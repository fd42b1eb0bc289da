-- ===== src/Config/Shares.antt =====
-- The entries that `load_shares` makes of shares.conf.
use mathlib.Core.List.{append_assoc, append-nil}
use one_fass.Base.{ap, take-append_self, drop-append_self, length-append, ◌-◌, map, true, length}
use one_fass.Base.{
  Bool, ℕ, true, some, List, [], ◌∷◌, ◌++◌, map, length, take-append_self, drop-append_self,
  length-append, ap, ◌-◌, ◌≡◌, arith, All,
}
use one_fass.Text.{Text, codes, erase, npos}
use one_fass.Text.Split.{join}
use one_fass.Outcome.{done}
use one_fass.Config.{PropertyTree, load_shares, load_users, append_values, props}

-- A section of shares.conf with all four properties.
pub record Section : Type 0 where
  pub user : Text
  pub uid : Text
  pub gid : Text
  pub share : Text
  pub ttl : Text

-- The tree has the section.
abbrev pub HasSection : PropertyTree → Section → Type 0
HasSection pt s =
    (pt.get (s.user ++ codes ".uid") ≡ some s.uid)
    × (pt.get (s.user ++ codes ".gid") ≡ some s.gid)
    × (pt.get (s.user ++ codes ".share") ≡ some s.share)
    × (pt.get (s.user ++ codes ".ttl") ≡ some s.ttl)

-- The section as an entry `user:uid:gid:share:ttl`.
abbrev pub entry_of : Section → Text
entry_of s = join b':' (s.user ∷ s.uid ∷ s.gid ∷ s.share ∷ s.ttl ∷ [])

erase_last : (s : Text) (c : ℕ) → erase (length (s ++ (c ∷ [])) - 1) npos (s ++ (c ∷ [])) ≡ some s
unfolding erase
erase_last s c =
    rw (last_place, take-append_self s (c ∷ []), drop-append_self s (c ∷ []))
      (ground (arith, length-append s (c ∷ []), append-nil s))
  where
    last_place : length (s ++ (c ∷ [])) - 1 ≡ length s
    last_place = omega (arith, length-append s (c ∷ []))

append_values_all :
    (pt : PropertyTree) (s : Section)
    → HasSection pt s
    → append_values pt s.user props (s.user ++ codes ":") ≡ some (entry_of s ++ codes ":")
unfolding append_values join
append_values_all pt s (u, g, h, t) = rw (u, g, h, t) (ap some (simp append_assoc))

-- The users of the sections, in order.
abbrev pub users_of : List Section → List Text
users_of = map (λ s. s.user)

load_users-entries :
    (logger : Bool) (pt : PropertyTree) (ss : List Section) (shares : List Text)
    → All (HasSection pt) ss
    → load_users logger pt (users_of ss) shares ≡ done (true, shares ++ map entry_of ss)
unfolding load_users
load_users-entries logger pt [] shares h = rw (append-nil shares)
load_users-entries logger pt (s ∷ ss) shares (one, all) =
    rw (append_values_all pt s one, erase_last (entry_of s) b':')
      (rw (load_users-entries logger pt ss (shares ++ (entry_of s ∷ [])) all)
        (rw (append_assoc shares (entry_of s ∷ []) (map entry_of ss))))

-- A file whose sections have all four properties is read in full: the entries of its sections, as
-- `user:uid:gid:share:ttl`, are put in order behind those that are there.
pub load_shares-entries :
    (logger : Bool) (pt : PropertyTree) (ss : List Section) (shares : List Text)
    → pt.sections ≡ users_of ss
    → All (HasSection pt) ss
    → load_shares logger (some pt) shares ≡ done (true, shares ++ map entry_of ss)
unfolding load_shares
load_shares-entries logger pt ss shares e h = rw e (load_users-entries logger pt ss shares h)
