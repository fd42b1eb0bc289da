-- ===== src/Daemon/Paths.antt =====
-- The directory that the daemon enters is the one of `Fass`.
use one_fass.Base.{
  ℕ, ◌==◌, ◌&&◌, Bool, false, some, [], ◌∷◌, ◌++◌, ◌≡◌, refl, if◌then◌else◌, arith, Option, none,
  inl, inr, ◌↔◌, ap, sym, ◌∙◌,
}
use mathlib.Core.Option.{some-injective}
use one_fass.Base.{Bool-cases}
use one_fass.Text.{Text, codes}
use one_fass.Outcome.{done, throws, done-injective}
use one_fass.Daemon.{Locations, locations, last, daemon_var}

abbrev starts_slash : Text → Bool
starts_slash [] = false
starts_slash (c ∷ w) = c == b'/'

-- Two slashes name the same path as one.
abbrev pub squeeze : Text → Text
squeeze [] = []
squeeze (c ∷ w) = let rest = squeeze w in if (c == b'/') && starts_slash w then rest else c ∷ rest

starts_slash-append :
    (w r : Text) → starts_slash (w ++ (b'/' ∷ b'/' ∷ r)) ≡ starts_slash (w ++ (b'/' ∷ r))
starts_slash-append [] r = refl
starts_slash-append (c ∷ w) r = refl

squeeze-double : (w r : Text) → squeeze (w ++ (b'/' ∷ b'/' ∷ r)) ≡ squeeze (w ++ (b'/' ∷ r))
squeeze-double [] r = refl
squeeze-double (c ∷ w) r = rw (starts_slash-append w r, squeeze-double w r) refl

append_assoc : (u v w : Text) → (u ++ v) ++ w ≡ u ++ (v ++ w)
append_assoc [] v w = refl
append_assoc (c ∷ u) v w = ap (λ t. c ∷ t) (append_assoc u v w)

last-split : (w : Text) {c : ℕ} → last w ≡ some c → (u : Text) × (w ≡ u ++ (c ∷ []))
last-split [] e = cc
last-split (d ∷ []) e = ([], ap (λ b. b ∷ []) (some-injective _ _ e))
last-split (d ∷ b ∷ w) e = let (u, same) = last-split (b ∷ w) e in (d ∷ u, ap (λ t. d ∷ t) same)

same_var :
    (nl : Text) (c : ℕ)
    → last nl ≡ some c
    → squeeze ((if c == b'/' then nl else nl ++ codes "/") ++ codes "var/")
      ≡ squeeze (nl ++ codes "/var/")
same_var nl c e = elim (Bool-cases (c == b'/')) [
  | inl slash ↦
      let (u, same) = last-split nl e in
      let is : c ≡ b'/' = ground arith in
      rw
        (
          slash,
          same,
          is,
          append_assoc u (b'/' ∷ []) (codes "var/"),
          append_assoc u (b'/' ∷ []) (codes "/var/"),
          squeeze-double u (codes "var/"),
        )
        refl
  | inr plain ↦ rw (plain, append_assoc nl (codes "/") (codes "var/")) refl
]

last-cons : (c : ℕ) (w : Text) → (d : ℕ) × (last (c ∷ w) ≡ some d)
last-cons c [] = (c, refl)
last-cons c (b ∷ w) = last-cons b w

locations_made :
    (nl : Text) (c : ℕ)
    → last nl ≡ some c
    → locations (some nl)
      ≡ done (record {
        etc_location = (if c == b'/' then nl else nl ++ codes "/") ++ codes "etc/";
        log_location = (if c == b'/' then nl else nl ++ codes "/") ++ codes "var/";
        var_location = (if c == b'/' then nl else nl ++ codes "/") ++ codes "var/";
      })
unfolding locations
locations_made nl c at = rw (locations, at) refl

-- When the constructor of `Fass` returns, the directory that it takes for the variable files is, but for
-- doubled slashes, the one that `main` of the daemon enters; it throws exactly if `FASS_LOCATION` is set
-- to the empty text.
pub locations-daemon_var :
    (location : Option Text)
    → ((locations location ≡ throws) ↔ (location ≡ some []))
      × ((l : Locations)
          → locations location ≡ done l
          → squeeze l.var_location ≡ squeeze (daemon_var location))
unfolding locations daemon_var
locations-daemon_var none =
    ((λ e. cc, λ e. cc), λ l e. ap (λ l. squeeze l.var_location) (sym (done-injective _ _ e)))
locations-daemon_var (some []) = ((λ e. refl, λ e. refl), λ l e. cc)
locations-daemon_var (some (c ∷ w)) =
    let (d, at) = last-cons c w in
    let made = locations_made (c ∷ w) d at in
    (
      (λ e. cc, λ e. cc),
      λ l e.
          ap (λ l. squeeze l.var_location) (done-injective _ _ (sym e ∙ made))
          ∙ same_var (c ∷ w) d at,
    )
