-- ===== src/Xml/Memory/Pools/Leaks.antt =====
-- What `flush` gives back of the objects of a pool, and what stays behind.
use mathlib.Core.List.{append_assoc}
use one_fass.Base.{
  none, some, Option-cases, some, Option, ◌+◌, ℕ, ℤ, Bool, true, false, List, [], ◌∷◌, ◌++◌, ◌≡◌,
  refl, sym, ap, ◌∙◌, inl, inr, Bool-cases, arith, ltb_ℤ,
}
use one_fass.Outcome.{bind_ap, >>=-eq-done, done}
use one_fass.StdMap.{find, insert, Map, place}
use one_fass.Xml.Memory.Pools.Counts.{
  weigh, weigh-append, numbers, made_objects, made_entries, made_all,
}
use one_fass.Xml.Memory.Pools.Deletes.{
  delete_each_append, delete_each_comm, delete_each_swap, delete_each_first, weigh-delete_each,
}
use one_fass.Xml.Memory.Pools.{
  add_object, new_object, pointer, pointers, make_objects, add_objects, Owner, flush,
  make_user_object, delete_each, delete_all,
}

module _ {V : Type 0} (pointers : V → List ℕ) where
  -- All pointers of a map, in its order.
  abbrev pub held : Map ℤ V → List ℕ
  held [] = []
  held ((key, v) ∷ objects) = pointers v ++ held objects

  delete_all-held :
      (objects : Map ℤ V) (live : List ℕ)
      → delete_all pointers objects live ≡ delete_each (held objects) live
  unfolding delete_all delete_each
  delete_all-held [] live = refl
  delete_all-held ((key, v) ∷ objects) live =
      bind_ap (delete_each (pointers v) live) _ _ (delete_all-held objects)
      ∙ sym (delete_each_append (pointers v) (held objects) live)

  -- It does not matter where an entry is placed.
  delete_each-place :
      (key : ℤ) (v : V) (objects : Map ℤ V) (live : List ℕ)
      → delete_each (held (place ltb_ℤ key v objects)) live
        ≡ delete_each (pointers v ++ held objects) live
  unfolding place
  delete_each-place key v [] live = refl
  delete_each-place key v ((j, w) ∷ objects) live = elim (Bool-cases (ltb_ℤ key j)) [
    | inl p ↦ rw p refl
    | inr p ↦ rw p (
        delete_each_append (pointers w) _ live
        ∙ bind_ap (delete_each (pointers w) live) _ _ (delete_each-place key v objects)
        ∙ sym (delete_each_append (pointers w) (pointers v ++ held objects) live)
        ∙ delete_each_swap (pointers w) (pointers v) (held objects) live)
  ]

  -- The pointers of the map can be deleted, after those of a list that is not in it.
  abbrev pub Deletable : List ℕ → Owner V → Type 0
  Deletable l p = (left : List ℕ) × (delete_each (l ++ held p.objects) p.live ≡ done left)

  Deletable-new :
      (l : List ℕ) (p : Owner V) → Deletable l p → Deletable (l ++ (p.fresh ∷ [])) (new_object p)
  Deletable-new l p (left, e) = (
    left,
    ap (λ ns. delete_each ns (p.fresh ∷ p.live)) (append_assoc l (p.fresh ∷ []) (held p.objects))
        ∙ delete_each_swap l (p.fresh ∷ []) (held p.objects) (p.fresh ∷ p.live)
        ∙ delete_each_first p.fresh (l ++ held p.objects) p.live
        ∙ e,
  )

  -- The list is dropped, and its pointers stay behind.
  Deletable-drop : (l : List ℕ) (p : Owner V) → Deletable l p → Deletable [] p
  Deletable-drop l p (left, e) =
      let swapped =
        sym (delete_each_comm l (held p.objects) p.live)
        ∙ sym (delete_each_append l (held p.objects) p.live)
        ∙ e in
      let (mid, e0, r0) = >>=-eq-done (delete_each (held p.objects) p.live) _ swapped in (mid, e0)

  Deletable-insert :
      (key : ℤ) (v : V) (p : Owner V)
      → Deletable (pointers v) p
      → Deletable [] (record p { objects = insert ltb_ℤ key v p.objects })
  unfolding insert
  Deletable-insert key v p (left, e) = elim (Option-cases (find ltb_ℤ key p.objects)) [
    | inl absent ↦ rw (absent, insert) (left, delete_each-place key v p.objects p.live ∙ e)
    | inr (w, present) ↦ rw (present, insert) (Deletable-drop (pointers v) p (left, e))
  ]

  flush-Deletable :
      (p : Owner V)
      → Deletable [] p
      → (left : List ℕ) × (flush pointers p ≡ done (record p { objects = []; live = left }))
        × ((g : ℕ → ℕ) → weigh g left + weigh g (held p.objects) ≡ weigh g p.live)
  unfolding flush
  flush-Deletable p (left, e) =
      let deleted = delete_all-held p.objects p.live ∙ e in
      (left, rw deleted refl, λ g. weigh-delete_each g (held p.objects) p.live e)

add_objects-Deletable :
    (ns : List (Option ℤ)) (p : Owner ℕ)
    → Deletable pointer [] p
    → Deletable pointer [] (add_objects ns p)
unfolding add_objects
add_objects-Deletable [] p h = h
add_objects-Deletable (none ∷ ns) p h = add_objects-Deletable ns p h
add_objects-Deletable (some oid ∷ ns) p h =
    add_objects-Deletable ns (add_object (some oid) p)
      (Deletable-insert pointer oid p.fresh (new_object p) (Deletable-new pointer [] p h))

weigh-add_objects :
    (g : ℕ → ℕ) (ns : List (Option ℤ)) (p : Owner ℕ)
    → weigh g (add_objects ns p).live ≡ weigh g p.live + weigh g (made_objects p.fresh ns)
unfolding add_objects
weigh-add_objects g [] p = omega arith
weigh-add_objects g (none ∷ ns) p = weigh-add_objects g ns p
weigh-add_objects g (some oid ∷ ns) p =
    omega (arith, weigh-add_objects g ns (add_object (some oid) p))

make_user_object-Deletable :
    (uid : ℤ) (nodes : List Bool) (l : List ℕ) (p : Owner (List ℕ))
    → Deletable pointers l p
    → Deletable pointers [] (make_user_object uid nodes l p)
unfolding make_user_object
make_user_object-Deletable uid [] l p h = Deletable-insert pointers uid l p h
make_user_object-Deletable uid (false ∷ nodes) l p h = Deletable-drop pointers l p h
make_user_object-Deletable uid (true ∷ nodes) l p h =
    make_user_object-Deletable uid nodes (l ++ (p.fresh ∷ [])) (new_object p)
      (Deletable-new pointers l p h)

weigh-make_user_object :
    (g : ℕ → ℕ) (uid : ℤ) (nodes : List Bool) (l : List ℕ) (p : Owner (List ℕ))
    → weigh g (make_user_object uid nodes l p).live
      ≡ weigh g p.live + weigh g (numbers (made_entries nodes) p.fresh)
unfolding make_user_object
weigh-make_user_object g uid [] l p = omega arith
weigh-make_user_object g uid (false ∷ nodes) l p = omega arith
weigh-make_user_object g uid (true ∷ nodes) l p =
    omega (arith, weigh-make_user_object g uid nodes (l ++ (p.fresh ∷ [])) (new_object p))

pub fresh-make_user_object :
    (uid : ℤ) (nodes : List Bool) (l : List ℕ) (p : Owner (List ℕ))
    → (make_user_object uid nodes l p).fresh ≡ p.fresh + made_entries nodes
unfolding make_user_object
fresh-make_user_object uid [] l p = omega arith
fresh-make_user_object uid (false ∷ nodes) l p = omega arith
fresh-make_user_object uid (true ∷ nodes) l p =
    omega (arith, fresh-make_user_object uid nodes (l ++ (p.fresh ∷ [])) (new_object p))

make_objects-Deletable :
    (users : List (ℤ × List Bool)) (p : Owner (List ℕ))
    → Deletable pointers [] p
    → Deletable pointers [] (make_objects users p)
unfolding make_objects
make_objects-Deletable [] p h = h
make_objects-Deletable ((uid, []) ∷ users) p h = make_objects-Deletable users p h
make_objects-Deletable ((uid, n ∷ ns) ∷ users) p h =
    make_objects-Deletable users (make_user_object uid (n ∷ ns) [] p)
      (make_user_object-Deletable uid (n ∷ ns) [] p h)

weigh-make_objects :
    (g : ℕ → ℕ) (users : List (ℤ × List Bool)) (p : Owner (List ℕ))
    → weigh g (make_objects users p).live ≡ weigh g p.live + weigh g (made_all p.fresh users)
unfolding make_objects
weigh-make_objects g [] p = omega arith
weigh-make_objects g ((uid, []) ∷ users) p =
    let same : p.fresh + 0 ≡ p.fresh = omega arith in
    let numbered = ap (λ k. weigh g (made_all k users)) same in
    omega (arith, numbered, weigh-make_objects g users p)
weigh-make_objects g ((uid, n ∷ ns) ∷ users) p =
    let made = numbers (made_entries (n ∷ ns)) p.fresh in
    let later = made_all (p.fresh + made_entries (n ∷ ns)) users in
    let numbered =
      ap (λ k. weigh g (made_all k users)) (fresh-make_user_object uid (n ∷ ns) [] p) in
    omega (
      arith,
      numbered,
      weigh-append g made later,
      weigh-make_user_object g uid (n ∷ ns) [] p,
      weigh-make_objects g users (make_user_object uid (n ∷ ns) [] p),
    )

-- From a pool that has been flushed to the next `flush`: what is not in the map stays.
pub flush-add_objects_balance :
    (ns : List (Option ℤ)) (live : List ℕ) (fresh : ℕ)
    → let p = add_objects ns (record { objects = []; live = live; fresh = fresh }) in
      (left : List ℕ) × (flush pointer p ≡ done (record p { objects = []; live = left }))
      × ((g : ℕ → ℕ)
          → weigh g left + weigh g (held pointer p.objects)
            ≡ weigh g live + weigh g (made_objects fresh ns))
unfolding delete_each
flush-add_objects_balance ns live fresh =
    let p : Owner ℕ = record { objects = []; live = live; fresh = fresh } in
    let (left, e, weight) =
      flush-Deletable pointer (add_objects ns p) (add_objects-Deletable ns p (live, refl)) in
    (left, e, λ g. weight g ∙ weigh-add_objects g ns p)

pub flush-make_objects_balance :
    (users : List (ℤ × List Bool)) (live : List ℕ) (fresh : ℕ)
    → let p = make_objects users (record { objects = []; live = live; fresh = fresh }) in
      (left : List ℕ) × (flush pointers p ≡ done (record p { objects = []; live = left }))
      × ((g : ℕ → ℕ)
          → weigh g left + weigh g (held pointers p.objects)
            ≡ weigh g live + weigh g (made_all fresh users))
unfolding delete_each
flush-make_objects_balance users live fresh =
    let p : Owner (List ℕ) = record { objects = []; live = live; fresh = fresh } in
    let (left, e, weight) =
      flush-Deletable pointers (make_objects users p)
        (make_objects-Deletable users p (live, refl)) in
    (left, e, λ g. weight g ∙ weigh-make_objects g users p)
