-- ===== src/Plugin/Totals.antt =====
-- The totals that the plugin normalises by: `insert` on a `std::map` keeps the entry that is there,
-- so the usage of the later users is never added.
use one_fass.Base.{
  ℕ, zero, suc, ◌≤◌, ℤ, ◌+ℤ◌, ltb, some, List, [], ◌∷◌, ◌≡◌, refl, arith, length, All, Option-cases,
  inl, inr,
}
use one_fass.StdMap.{Map, find, insert}
use one_fass.StdMap.Laws.{insert_present, find-insert}
use one_fass.User.{User, Usage}
use one_fass.Plugin.{BasicPlugin, add_usages, add_users, evaluate_total_usage}

-- The totals hold n periods from `count` on.
abbrev Covers : ℕ → ℕ → Map ℕ ℤ → Type 0
Covers zero count tot = Unit
Covers (suc n) count tot = ((t : ℤ) × (find ltb count tot ≡ some t)) × Covers n (suc count) tot

add_usages_covered :
    (count : ℕ) (m : Map ℕ Usage) (tot : Map ℕ ℤ)
    → Covers (length m) count tot
    → add_usages count m tot ≡ tot
unfolding add_usages
add_usages_covered count [] tot c = refl
add_usages_covered count ((k, u) ∷ m) tot ((t, e), c) =
    rw (e, insert_present ltb count (t +ℤ u.usage) t tot e) (add_usages_covered (suc count) m tot c)

-- A total that is there is there afterwards, with the same value.
find-insert_kept :
    (k j : ℕ) (v w : ℤ) (m : Map ℕ ℤ)
    → find ltb j m ≡ some w
    → find ltb j (insert ltb k v m) ≡ some w
find-insert_kept k j v w m e = elim (Option-cases (find ltb k m)) [
  | inl h ↦ rw (find-insert k j v m h) (ground arith)
  | inr (u, h) ↦ rw (insert_present ltb k v u m h) e
]

find-add_usages :
    (j count : ℕ) (m : Map ℕ Usage) (tot : Map ℕ ℤ) (w : ℤ)
    → find ltb j tot ≡ some w
    → find ltb j (add_usages count m tot) ≡ some w
unfolding add_usages
find-add_usages j count [] tot w e = e
find-add_usages j count ((k, u) ∷ m) tot w e =
    find-add_usages j (suc count) m _ w (find-insert_kept count j _ w tot e)

find-insert_self :
    (k : ℕ) (v : ℤ) (m : Map ℕ ℤ) → (w : ℤ) × (find ltb k (insert ltb k v m) ≡ some w)
find-insert_self k v m = elim (Option-cases (find ltb k m)) [
  | inl h ↦ (v, rw (find-insert k k v m h) (ground arith))
  | inr (u, h) ↦ (u, rw (insert_present ltb k v u m h) h)
]

add_usages-Covers :
    (count : ℕ) (m : Map ℕ Usage) (tot : Map ℕ ℤ) → Covers (length m) count (add_usages count m tot)
unfolding add_usages
add_usages-Covers count [] tot = tt
add_usages-Covers count ((k, u) ∷ m) tot =
    let (w, e) = find-insert_self count _ tot in
    ((w, find-add_usages count (suc count) m _ w e), add_usages-Covers (suc count) m _)

Covers-le : (m n count : ℕ) (tot : Map ℕ ℤ) → m ≤ n → Covers n count tot → Covers m count tot
Covers-le zero n count tot h c = tt
Covers-le (suc m) zero count tot h c = elim h [ ]
Covers-le (suc m) (suc n) count tot h (e, c) = (e, Covers-le m n (suc count) tot (omega arith) c)

module _ {F : Type 0} where
  -- A user has no more periods than another one.
  abbrev pub NoLonger : User F → User F → Type 0
  NoLonger u v =
      (length v.cpu_usage ≤ length u.cpu_usage) × (length v.memory_usage ≤ length u.memory_usage)

  add_users_covered :
      (u : User F) (us : List (User F)) (p : BasicPlugin)
      → Covers (length u.cpu_usage) 0 p.tot_cpu
      → Covers (length u.memory_usage) 0 p.tot_mem
      → All (NoLonger u) us
      → add_users us p ≡ p
  unfolding add_users
  add_users_covered u [] p c d h = refl
  add_users_covered u (v ∷ us) p c d ((lc, lm), h) =
      rw
        (
          add_usages_covered 0 v.cpu_usage p.tot_cpu (Covers-le _ _ 0 p.tot_cpu lc c),
          add_usages_covered 0 v.memory_usage p.tot_mem (Covers-le _ _ 0 p.tot_mem lm d),
        )
        (add_users_covered u us p c d h)

  -- If no later user has more periods than the first one, the totals over all users are the totals
  -- over the first user alone.
  pub evaluate_total_usage-first :
      (u : User F) (us : List (User F))
      → All (NoLonger u) us
      → evaluate_total_usage (u ∷ us) ≡ evaluate_total_usage (u ∷ [])
  unfolding evaluate_total_usage add_users
  evaluate_total_usage-first u us h =
      add_users_covered u us _ (add_usages-Covers 0 u.cpu_usage [])
        (add_usages-Covers 0 u.memory_usage []) h
