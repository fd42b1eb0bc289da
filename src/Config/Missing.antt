-- ===== src/Config/Missing.antt =====
-- A section of shares.conf that lacks a property.
use one_fass.Base.{
  drop, take, ℕ, ltb, length, ◌-◌, false, none, some, List, [], ◌∷◌, ◌++◌, ◌≡◌, refl, inl, inr,
  Among, arith, Option-cases,
}
use one_fass.Text.{Text, codes, erase, npos}
use one_fass.Outcome.{faults}
use one_fass.Config.{PropertyTree, load_shares, load_users, append_values, props}

-- The section of the user has no such property.
abbrev pub Lacks : PropertyTree → Text → Text → Type 0
Lacks pt user property = pt.get (user ++ (codes "." ++ property)) ≡ none

append_values-Lacks :
    (pt : PropertyTree) (user property : Text) (properties : List Text) (value : Text)
    → Lacks pt user property
    → Among property properties
    → append_values pt user properties value ≡ none
unfolding append_values
append_values-Lacks pt user property [] value lacks among = absurd among
append_values-Lacks pt user property (p ∷ ps) value lacks (inl e) =
    let missing : Lacks pt user p = rw (← e) lacks in rw (append_values, missing) refl
append_values-Lacks pt user property (p ∷ ps) value lacks (inr among) =
    elim (Option-cases (pt.get (user ++ (codes "." ++ p)))) [
      | inl e ↦ rw (append_values, e) refl
      | inr (v, e) ↦
          rw (append_values, e)
            (append_values-Lacks pt user property ps (value ++ (v ++ codes ":")) lacks among)
    ]

not_less : (n : ℕ) → ltb n (n - 1) ≡ false
not_less n = ground arith

last_erased : (s : Text) → (t : Text) × (erase (length s - 1) npos s ≡ some t)
unfolding erase
last_erased s =
    (take (length s - 1) s ++ drop npos (drop (length s - 1) s), rw (not_less (length s)) refl)

load_users-Lacks :
    (pt : PropertyTree) (user property : Text) (users shares : List Text)
    → Lacks pt user property
    → Among property props
    → Among user users
    → load_users false pt users shares ≡ faults
unfolding load_users
load_users-Lacks pt user property [] shares lacks known among = absurd among
load_users-Lacks pt user property (u ∷ us) shares lacks known (inl e) =
    rw (append_values-Lacks pt u property props (u ++ codes ":") (rw (← e) lacks) known) refl
load_users-Lacks pt user property (u ∷ us) shares lacks known (inr among) =
    elim (Option-cases (append_values pt u props (u ++ codes ":"))) [
      | inl e ↦ rw e refl
      | inr (v, e) ↦
          let (t, erased) = last_erased v in
          rw (e, erased)
            (load_users-Lacks pt user property us (shares ++ (t ∷ [])) lacks known among)
    ]

pub load_shares-Lacks :
    (pt : PropertyTree) (user property : Text) (shares : List Text)
    → Lacks pt user property
    → Among property props
    → Among user pt.sections
    → load_shares false (some pt) shares ≡ faults
unfolding load_shares
load_shares-Lacks pt user property shares lacks known among =
    load_users-Lacks pt user property pt.sections shares lacks known among
