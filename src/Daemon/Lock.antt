-- ===== src/Daemon/Lock.antt =====
-- When the daemon runs, and when its lock file stays behind.
use mathlib.Core.Sum.{inr-injective}
use one_fass.Base.{
  some, [], ◌∷◌, refl, sym, ap, ◌∙◌, ℤ, pos, negsuc, Bool, true, false, List, ◌≡◌, ◌≢◌, ◌↔◌, ◌⊎◌,
  inl, inr, Among, arith,
}
use one_fass.Daemon.{
  version, help, init_db, in_foreground, unknown, print_license, print_help, print_usage,
  fassd_init, launch, System, Flag, Act, fassd_main, main, read_flags,
}

launch-fassd_main :
    (sys : System) (exists foreground : Bool)
    → Among fassd_main ((launch sys exists foreground).acts) ↔ (
        (exists ≡ false)
        × (sys.can_create ≡ true)
        × (sys.chdir_rc ≡ pos 0)
        × ((foreground ≡ true) ⊎ ((sys.pid ≡ pos 0) × (sys.sid ≢ negsuc 0))))
unfolding launch
launch-fassd_main sys true foreground = (λ h. ground arith, λ h. ground arith)
launch-fassd_main sys false true = (λ h. ground arith, λ h. ground arith)
launch-fassd_main sys false false = (λ h. ground arith, λ h. ground arith)

launch-locked :
    (sys : System) (exists foreground : Bool)
    → ((launch sys exists foreground).locked ≡ true) ↔ (
        (exists ≡ true)
        ⊎ ((foreground ≡ false) × (sys.can_create ≡ true) × (sys.pid ≢ pos 0))
        ⊎ (Among fassd_main ((launch sys exists foreground).acts) × (sys.main_returns ≡ false)))
unfolding launch
launch-locked sys true foreground = (λ h. ground arith, λ h. ground arith)
launch-locked sys false true = (λ h. ground arith, λ h. ground arith)
launch-locked sys false false = (λ h. ground arith, λ h. ground arith)

launch-fassd_init :
    (sys : System) (exists foreground : Bool)
    → ¬ Among fassd_init ((launch sys exists foreground).acts)
unfolding launch
launch-fassd_init sys true foreground h = ground arith
launch-fassd_init sys false true h = ground arith
launch-fassd_init sys false false h = ground arith

-- The option -i comes first, but for -f.
abbrev pub InitFirst : List Flag → Type 0
InitFirst (init_db ∷ flags) = Unit
InitFirst (in_foreground ∷ flags) = InitFirst flags
InitFirst _ = ⊥

flags-cases :
    (flags : List Flag) (foreground : Bool)
    → ((e : Act × ℤ) × (read_flags flags foreground ≡ inl e)
        × (fassd_main ≢ e.0)
        × ((fassd_init ≡ e.0) ↔ InitFirst flags))
      ⊎ ((stays : Bool) × (read_flags flags foreground ≡ inr stays) × (¬ InitFirst flags))
unfolding read_flags
flags-cases [] foreground = inr (foreground, refl, λ h. h)
flags-cases (version ∷ flags) foreground =
    inl ((print_license, pos 0), refl, (λ e. cc), (λ e. cc, λ h. absurd h))
flags-cases (help ∷ flags) foreground =
    inl ((print_help, pos 0), refl, (λ e. cc), (λ e. cc, λ h. absurd h))
flags-cases (init_db ∷ flags) foreground =
    inl ((fassd_init, pos 0), refl, (λ e. cc), (λ e. tt, λ h. refl))
flags-cases (in_foreground ∷ flags) foreground = flags-cases flags true
flags-cases (unknown ∷ flags) foreground =
    inl ((print_usage, negsuc 0), refl, (λ e. cc), (λ e. cc, λ h. absurd h))

module _ (sys : System) (flags : List Flag) (exists : Bool) where
  main-answered :
      (e : Act × ℤ)
      → read_flags flags false ≡ inl e
      → main sys flags exists ≡ record { acts = e.0 ∷ []; code = some e.1; locked = exists }
  unfolding main
  main-answered e at = rw (main, at) refl

  main-launched :
      (foreground : Bool)
      → read_flags flags false ≡ inr foreground
      → main sys flags exists ≡ launch sys exists foreground
  unfolding main
  main-launched foreground at = rw (main, at) refl

-- `fassd_main`, which starts the daemon, is called exactly if no option ends `main` before, there was no
-- lock file and it could be made, this is the child or the process in the foreground, the directory
-- could be entered, and, in the background, the process has a session of its own. `fassd_init`, which
-- starts it as well, is called exactly if -i is the first of the options but for -f, whatever the lock
-- file.
pub main-fassd_main :
    (sys : System) (flags : List Flag) (exists : Bool)
    → (Among fassd_main ((main sys flags exists).acts) ↔ (
        (foreground : Bool) × (read_flags flags false ≡ inr foreground)
        × (exists ≡ false)
        × (sys.can_create ≡ true)
        × (sys.chdir_rc ≡ pos 0)
        × ((foreground ≡ true) ⊎ ((sys.pid ≡ pos 0) × (sys.sid ≢ negsuc 0)))))
      × (Among fassd_init ((main sys flags exists).acts) ↔ InitFirst flags)
main-fassd_main sys flags exists = elim (flags-cases flags false) [
  | inl (e, at, other, init) ↦
      let run = main-answered sys flags exists e at in
      (
        (
          λ m. elim (rw run at m) [ inl same ↦ absurd (other same) | inr none ↦ absurd none ],
          λ h. cc,
        ),
        (
          λ m. elim (rw run at m) [ inl same ↦ init.0 same | inr none ↦ absurd none ],
          λ h. rw run (inl (init.1 h)),
        ),
      )
  | inr (foreground, at, stays_first) ↦
      let run = main-launched sys flags exists foreground at in
      let (forth, back) = launch-fassd_main sys exists foreground in
      (
        (
          λ m.
              let (free, made, entered, own) = forth (rw run at m) in
              (foreground, at, free, made, entered, own),
          λ h. rw run (
              let (stays, found, free, made, entered, own) = h in
              back (free, made, entered, rw (inr-injective _ _ (sym at ∙ found)) own)),
        ),
        (
          λ m. absurd (launch-fassd_init sys exists foreground (rw run at m)),
          λ h. absurd (stays_first h),
        ),
      )
]

-- The lock file is there at the end of a process exactly if it was there before, or this process has
-- made it in the background and is not the child, but the parent, or the fork failed, or it has called
-- `fassd_main` and ended in it.
pub main-locked :
    (sys : System) (flags : List Flag) (exists : Bool)
    → ((main sys flags exists).locked ≡ true) ↔ (
        (exists ≡ true)
        ⊎ ((read_flags flags false ≡ inr false) × (sys.can_create ≡ true) × (sys.pid ≢ pos 0))
        ⊎ (Among fassd_main ((main sys flags exists).acts) × (sys.main_returns ≡ false)))
main-locked sys flags exists = elim (flags-cases flags false) [
  | inl (e, at, other, init) ↦
      let run = main-answered sys flags exists e at in
      (
        λ l. inl (rw run at l),
        λ h. rw run (elim h [
          | inl l ↦ l
          | inr (inl started) ↦ cc
          | inr (inr (m, ended)) ↦ elim (rw run at m) [
            | inl same ↦ absurd (other same)
            | inr none ↦ absurd none
          ]
        ]),
      )
  | inr (foreground, at, stays_first) ↦
      let run = main-launched sys flags exists foreground at in
      let (forth, back) = launch-locked sys exists foreground in
      (
        λ l. elim (forth (rw run at l)) [
          | inl e ↦ inl e
          | inr (inl (behind, made, own)) ↦ inr (inl (at ∙ ap inr behind, made, own))
          | inr (inr (m, ended)) ↦ inr (inr (rw run m, ended))
        ],
        λ h. rw run (
            back (elim h [
              | inl e ↦ inl e
              | inr (inl (started, made, own)) ↦
                  inr (inl (inr-injective _ _ (sym at ∙ started), made, own))
              | inr (inr (m, ended)) ↦ inr (inr (rw run at m, ended))
            ])),
      )
]
