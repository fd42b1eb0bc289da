-- ===== src/Xml/Memory/Pools/Deletes.antt =====
-- Pointers are deleted in any order.
use one_fass.Base.{
  ◌+◌, ℕ, true, false, List, [], ◌∷◌, ◌++◌, ◌≡◌, refl, sym, ap, ◌∙◌, inl, inr, Bool-cases, ◌==◌,
  arith,
}
use one_fass.Outcome.{
  bind_assoc, bind_ap, bind_done, done-injective, >>=-eq-done, Outcome, done, throws, faults,
  blocks, ◌>>=◌,
}
use one_fass.Xml.Memory.Pools.Counts.{weigh}
use one_fass.Xml.Memory.{remove}
use one_fass.Xml.Memory.Pools.{delete_each}

remove_here : (m n : ℕ) (ms : List ℕ) → (m == n) ≡ true → remove n (m ∷ ms) ≡ done ms
unfolding remove
remove_here m n ms e = rw e refl

remove_there :
    (m n : ℕ) (ms : List ℕ)
    → (m == n) ≡ false
    → remove n (m ∷ ms) ≡ (remove n ms >>= λ r. done (m ∷ r))
unfolding remove
remove_there m n ms e = rw e refl

-- The list of the allocated, with one more at its head.
abbrev with_head : ℕ → Outcome (List ℕ) → Outcome (List ℕ)
with_head m o = o >>= λ r. done (m ∷ r)

head_removed : (m n : ℕ) (o : Outcome (List ℕ)) → (m == n) ≡ true → (with_head m o >>= remove n) ≡ o
head_removed m n (done ms) e = remove_here m n ms e
head_removed m n throws e = refl
head_removed m n faults e = refl
head_removed m n blocks e = refl

head_kept :
    (m n : ℕ) (o : Outcome (List ℕ))
    → (m == n) ≡ false
    → (with_head m o >>= remove n) ≡ with_head m (o >>= remove n)
head_kept m n (done ms) e = remove_there m n ms e
head_kept m n throws e = refl
head_kept m n faults e = refl
head_kept m n blocks e = refl

remove_nil : (n : ℕ) → remove n [] ≡ faults
unfolding remove
remove_nil n = refl

-- Two pointers are deleted in either order.
remove_comm : (a b : ℕ) (l : List ℕ) → (remove a l >>= remove b) ≡ (remove b l >>= remove a)
remove_comm a b [] = rw (remove_nil a, remove_nil b) refl
remove_comm a b (m ∷ ms) = elim (Bool-cases (m == a)) [
  | inl p ↦ elim (Bool-cases (m == b)) [
    | inl q ↦
        let same : a ≡ b = ground arith in
        ap (λ c. remove a (m ∷ ms) >>= remove c) (sym same)
        ∙ ap (λ c. remove c (m ∷ ms) >>= remove a) same
    | inr q ↦
        rw (remove_here m a ms p, remove_there m b ms q) (sym (head_removed m a (remove b ms) p))
  ]
  | inr p ↦ elim (Bool-cases (m == b)) [
    | inl q ↦ rw (remove_here m b ms q, remove_there m a ms p) (head_removed m b (remove a ms) q)
    | inr q ↦
        rw (remove_there m a ms p, remove_there m b ms q)
          (head_kept m b (remove a ms) q
            ∙ ap (with_head m) (remove_comm a b ms)
            ∙ sym (head_kept m a (remove b ms) p))
  ]
]

remove-delete_each :
    (a : ℕ) (ns live : List ℕ)
    → (remove a live >>= delete_each ns) ≡ (delete_each ns live >>= remove a)
unfolding delete_each
remove-delete_each a [] live = bind_done (remove a live)
remove-delete_each a (n ∷ ns) live =
    sym (bind_assoc (remove a live) (remove n) (delete_each ns))
    ∙ ap (λ o. o >>= delete_each ns) (remove_comm a n live)
    ∙ bind_assoc (remove n live) (remove a) (delete_each ns)
    ∙ bind_ap (remove n live) _ _ (remove-delete_each a ns)
    ∙ sym (bind_assoc (remove n live) (delete_each ns) (remove a))

pub delete_each_comm :
    (ms ns live : List ℕ)
    → (delete_each ms live >>= delete_each ns) ≡ (delete_each ns live >>= delete_each ms)
unfolding delete_each
delete_each_comm [] ns live = sym (bind_done (delete_each ns live))
delete_each_comm (m ∷ ms) ns live =
    bind_assoc (remove m live) (delete_each ms) (delete_each ns)
    ∙ bind_ap (remove m live) _ _ (delete_each_comm ms ns)
    ∙ sym (bind_assoc (remove m live) (delete_each ns) (delete_each ms))
    ∙ ap (λ o. o >>= delete_each ms) (remove-delete_each m ns live)
    ∙ bind_assoc (delete_each ns live) (remove m) (delete_each ms)

pub delete_each_append :
    (ms ns live : List ℕ) → delete_each (ms ++ ns) live ≡ (delete_each ms live >>= delete_each ns)
unfolding delete_each
delete_each_append [] ns live = refl
delete_each_append (m ∷ ms) ns live =
    bind_ap (remove m live) _ _ (delete_each_append ms ns)
    ∙ sym (bind_assoc (remove m live) (delete_each ms) (delete_each ns))

delete_each_three :
    (ms ns xs live : List ℕ)
    → delete_each (ms ++ (ns ++ xs)) live
      ≡ ((delete_each ms live >>= delete_each ns) >>= delete_each xs)
delete_each_three ms ns xs live =
    delete_each_append ms (ns ++ xs) live
    ∙ bind_ap (delete_each ms live) _ _ (delete_each_append ns xs)
    ∙ sym (bind_assoc (delete_each ms live) (delete_each ns) (delete_each xs))

pub delete_each_swap :
    (ms ns xs live : List ℕ)
    → delete_each (ms ++ (ns ++ xs)) live ≡ delete_each (ns ++ (ms ++ xs)) live
delete_each_swap ms ns xs live =
    delete_each_three ms ns xs live
    ∙ ap (λ o. o >>= delete_each xs) (delete_each_comm ms ns live)
    ∙ sym (delete_each_three ns ms xs live)

pub delete_each_first :
    (n : ℕ) (ns live : List ℕ) → delete_each (n ∷ ns) (n ∷ live) ≡ delete_each ns live
unfolding delete_each
delete_each_first n ns live = rw (remove_here n n live (ground arith)) refl

weigh-remove :
    (g : ℕ → ℕ) (n : ℕ) (live : List ℕ) {left : List ℕ}
    → remove n live ≡ done left
    → g n + weigh g left ≡ weigh g live
weigh-remove g n [] e = let none_left = remove_nil n in cc
weigh-remove g n (m ∷ ms) e = elim (Bool-cases (m == n)) [
  | inl p ↦
      let same : n ≡ m = ground (arith, p) in
      let left = ap (weigh g) (done-injective _ _ (sym e ∙ remove_here m n ms p)) in
      let weight = ap g same in omega (arith, left, weight)
  | inr p ↦
      let (left, e0, r0) = >>=-eq-done (remove n ms) _ (sym (remove_there m n ms p) ∙ e) in
      let whole = ap (weigh g) (done-injective _ _ r0) in
      omega (arith, whole, weigh-remove g n ms e0)
]

pub weigh-delete_each :
    (g : ℕ → ℕ) (ns live : List ℕ) {left : List ℕ}
    → delete_each ns live ≡ done left
    → weigh g left + weigh g ns ≡ weigh g live
unfolding delete_each
weigh-delete_each g [] live e = rw (done-injective _ _ e) (omega arith)
weigh-delete_each g (n ∷ ns) live e =
    let (more, e0, r0) = >>=-eq-done (remove n live) _ e in
    omega (arith, weigh-remove g n live e0, weigh-delete_each g ns more r0)
