-- ===== src/Xml/Memory/Pools/Spills.antt =====
-- How many objects of a pool stay behind.
use one_fass.Base.{
  ◌==◌, if◌then◌else◌, none, some, Option, ◌+◌, ℕ, ℤ, Bool, true, false, List, [], ◌∷◌, ◌++◌, ◌≡◌,
  refl, sym, ap, ◌∙◌, inl, inr, Bool-cases, arith, ltb_ℤ,
}
use mathlib.Core.Path.{subst}
use one_fass.Outcome.{done}
use one_fass.StdMap.{find, insert, Map, place}
use one_fass.StdMap.Order.{insert_absent}
use one_fass.Xml.Memory.Pools.{
  add_object, new_object, pointer, pointers, make_objects, add_objects, Owner, flush,
  make_user_object,
}
use one_fass.Xml.Memory.Pools.Counts.{
  mem, repeated, are_entries, spilled, made_objects, made_entries, made_all, weigh, weigh-append,
  count, numbers,
}
use one_fass.Xml.Memory.Pools.Keys.{Agrees, absent, present, Agrees-place}
use one_fass.Xml.Memory.Pools.Leaks.{
  held, flush-add_objects_balance, flush-make_objects_balance, fresh-make_user_object,
}

module _ {V : Type 0} (pointers : V → List ℕ) where
  weigh-held-place :
      (g : ℕ → ℕ) (key : ℤ) (v : V) (m : Map ℤ V)
      → weigh g (held pointers (place ltb_ℤ key v m))
        ≡ weigh g (pointers v) + weigh g (held pointers m)
  unfolding place
  weigh-held-place g key v [] = weigh-append g (pointers v) []
  weigh-held-place g key v ((j, w) ∷ m) = ground (
    arith,
    weigh-held-place g key v m,
    weigh-append g (pointers v) (held pointers ((j, w) ∷ m)),
    weigh-append g (pointers w) (held pointers m),
    weigh-append g (pointers w) (held pointers (place ltb_ℤ key v m)),
  )

-- A list of entries: all of them come to a list, which is put under the id of the user.
make_user_object_all :
    (uid : ℤ) (nodes : List Bool) (l : List ℕ) (p : Owner (List ℕ))
    → are_entries nodes ≡ true
    → (l' : List ℕ) × ((g : ℕ → ℕ)
        → weigh g l' ≡ weigh g l + weigh g (numbers (made_entries nodes) p.fresh))
      × ((make_user_object uid nodes l p).objects ≡ insert ltb_ℤ uid l' p.objects)
unfolding make_user_object
make_user_object_all uid [] l p e = (l, λ g. omega arith, refl)
make_user_object_all uid (false ∷ nodes) l p e = cc
make_user_object_all uid (true ∷ nodes) l p e =
    let (l', weight, same) =
      make_user_object_all uid nodes (l ++ (p.fresh ∷ [])) (new_object p) e in
    (l', λ g. omega (arith, weight g, weigh-append g l (p.fresh ∷ [])), same)

make_user_object_some :
    (uid : ℤ) (nodes : List Bool) (l : List ℕ) (p : Owner (List ℕ))
    → are_entries nodes ≡ false
    → (make_user_object uid nodes l p).objects ≡ p.objects
unfolding make_user_object
make_user_object_some uid [] l p e = cc
make_user_object_some uid (false ∷ nodes) l p e = refl
make_user_object_some uid (true ∷ nodes) l p e =
    make_user_object_some uid nodes (l ++ (p.fresh ∷ [])) (new_object p) e

module _ (g : ℕ → ℕ) where
  held-add_objects :
      (ns : List (Option ℤ)) (seen : List ℤ) (p : Owner ℕ)
      → Agrees seen p.objects
      → weigh g (held pointer (add_objects ns p).objects) + weigh g (repeated seen p.fresh ns)
        ≡ weigh g (held pointer p.objects) + weigh g (made_objects p.fresh ns)
  unfolding add_objects
  held-add_objects [] seen p h = refl
  held-add_objects (none ∷ ns) seen p h = held-add_objects ns seen p h
  held-add_objects (some oid ∷ ns) seen p h = elim (Bool-cases (mem oid seen)) [
    | inl e ↦
        let same = present seen p.objects oid p.fresh h e in
        let still = subst (Agrees seen) (sym same) h in
        let weight = ap (λ o. weigh g (held pointer o)) same in
        rw e (omega (arith, weight, held-add_objects ns seen (add_object (some oid) p) still))
    | inr e ↦
        let same = insert_absent oid p.fresh p.objects (absent seen p.objects oid h e) in
        let now =
          subst (Agrees (oid ∷ seen)) (sym same) (Agrees-place seen p.objects oid p.fresh h) in
        let weight =
          ap (λ o. weigh g (held pointer o)) same
          ∙ weigh-held-place pointer g oid p.fresh p.objects in
        rw e (omega (arith, weight, held-add_objects ns (oid ∷ seen) (add_object (some oid) p) now))
  ]

  held-make_objects :
      (users : List (ℤ × List Bool)) (seen : List ℤ) (p : Owner (List ℕ))
      → Agrees seen p.objects
      → weigh g (held pointers (make_objects users p).objects)
          + weigh g (spilled seen p.fresh users)
        ≡ weigh g (held pointers p.objects) + weigh g (made_all p.fresh users)
  unfolding make_objects
  held-make_objects [] seen p h = refl
  held-make_objects ((uid, []) ∷ users) seen p h =
      let same : p.fresh + 0 ≡ p.fresh = omega arith in
      let numbered = ap (λ k. weigh g (made_all k users)) same in
      omega (arith, numbered, held-make_objects users seen p h)
  held-make_objects ((uid, n ∷ ns) ∷ users) seen p h =
      let q = make_user_object uid (n ∷ ns) [] p in
      let after = p.fresh + made_entries (n ∷ ns) in
      let next : q.fresh ≡ after = fresh-make_user_object uid (n ∷ ns) [] p in
      let mine = numbers (made_entries (n ∷ ns)) p.fresh in
      let all = weigh-append g mine (made_all after users) in
      let numbered = ap (λ k. weigh g (made_all k users)) next in
      let lost = weigh-append g mine (spilled seen after users) in
      let lost_numbered = ap (λ k. weigh g (spilled seen k users)) next in
      let kept_numbered = ap (λ k. weigh g (spilled (uid ∷ seen) k users)) next in
      elim (Bool-cases (are_entries (n ∷ ns))) [
        | inr e ↦
            let same = make_user_object_some uid (n ∷ ns) [] p e in
            let still = subst (Agrees seen) (sym same) h in
            let weight = ap (λ o. weigh g (held pointers o)) same in
            rw e (
              omega (
                arith,
                weight,
                all,
                numbered,
                lost,
                lost_numbered,
                held-make_objects users seen q still,
              ))
        | inl e ↦
            let (l, made, same) = make_user_object_all uid (n ∷ ns) [] p e in
            elim (Bool-cases (mem uid seen)) [
              | inl d ↦
                  let kept = same ∙ present seen p.objects uid l h d in
                  let still = subst (Agrees seen) (sym kept) h in
                  let weight = ap (λ o. weigh g (held pointers o)) kept in
                  rw (e, d)
                    (omega (
                      arith,
                      weight,
                      all,
                      numbered,
                      lost,
                      lost_numbered,
                      held-make_objects users seen q still,
                    ))
              | inr d ↦
                  let placed =
                    same ∙ insert_absent uid l p.objects (absent seen p.objects uid h d) in
                  let now =
                    subst (Agrees (uid ∷ seen)) (sym placed)
                      (Agrees-place seen p.objects uid l h) in
                  let weight =
                    ap (λ o. weigh g (held pointers o)) placed
                    ∙ weigh-held-place pointers g uid l p.objects in
                  rw (e, d)
                    (omega (
                      arith,
                      weight,
                      made g,
                      all,
                      numbered,
                      kept_numbered,
                      held-make_objects users (uid ∷ seen) q now,
                    ))
            ]
      ]

-- From a VMPool that has been flushed to its next `flush`: each pointer of the map is deleted once, and
-- of the virtual machines that were made those stay allocated whose id one before them has.
flush-add_objects :
    (ns : List (Option ℤ)) (live : List ℕ) (fresh : ℕ)
    → let p = add_objects ns (record { objects = []; live = live; fresh = fresh }) in
      (left : List ℕ) × (flush pointer p ≡ done (record p { objects = []; live = left }))
      × ((n : ℕ) → count n left ≡ count n live + count n (repeated [] fresh ns))
unfolding find
flush-add_objects ns live fresh =
    let p : Owner ℕ = record { objects = []; live = live; fresh = fresh } in
    let (left, e, weight) = flush-add_objects_balance ns live fresh in
    (
      left,
      e,
      λ n.
          let g : ℕ → ℕ = λ m. if m == n then 1 else 0 in
          omega (arith, weight g, held-add_objects g ns [] p (λ k. refl)),
    )

-- The objects are numbered in the order of their allocation. From an AcctPool that has been flushed to
-- its next `flush`: each pointer of the lists is deleted once, and what is allocated then is what was
-- allocated before and those entries that were made for a user with a node that is no entry, before
-- that node, or for a user that has a list already.
pub flush-make_objects :
    (users : List (ℤ × List Bool)) (live : List ℕ) (fresh : ℕ)
    → let p = make_objects users (record { objects = []; live = live; fresh = fresh }) in
      (left : List ℕ) × (flush pointers p ≡ done (record p { objects = []; live = left }))
      × ((n : ℕ) → count n left ≡ count n live + count n (spilled [] fresh users))
unfolding find
flush-make_objects users live fresh =
    let p : Owner (List ℕ) = record { objects = []; live = live; fresh = fresh } in
    let (left, e, weight) = flush-make_objects_balance users live fresh in
    (
      left,
      e,
      λ n.
          let g : ℕ → ℕ = λ m. if m == n then 1 else 0 in
          omega (arith, weight g, held-make_objects g users [] p (λ k. refl)),
    )
