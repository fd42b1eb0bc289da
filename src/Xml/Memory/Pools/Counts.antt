-- ===== src/Xml/Memory/Pools/Counts.antt =====
-- Which objects are made, and which of them are lost.
use one_fass.Base.{
  zero, arith, ◌≡◌, ◌++◌, ◌==◌, ℕ, suc, ℤ, ◌==ℤ◌, ◌||◌, ◌&&◌, ◌+◌, not, Bool, true, false, Option,
  none, some, List, [], ◌∷◌, if◌then◌else◌,
}

-- A list of numbers, each with its weight.
abbrev pub weigh : (ℕ → ℕ) → List ℕ → ℕ
weigh g [] = 0
weigh g (n ∷ ns) = g n + weigh g ns

-- How often a number is in a list.
abbrev pub count : ℕ → List ℕ → ℕ
count k = weigh (λ n. if n == k then 1 else 0)

pub weigh-append : (g : ℕ → ℕ) (xs ys : List ℕ) → weigh g (xs ++ ys) ≡ weigh g xs + weigh g ys
weigh-append g [] ys = omega arith
weigh-append g (x ∷ xs) ys = omega (arith, weigh-append g xs ys)

abbrev pub numbers : ℕ → ℕ → List ℕ
numbers zero k = []
numbers (suc n) k = k ∷ numbers n (suc k)

-- The virtual machines that are made, from the next number on: one for each node that is not refused.
abbrev pub made_objects : ℕ → List (Option ℤ) → List ℕ
made_objects fresh [] = []
made_objects fresh (none ∷ ns) = made_objects fresh ns
made_objects fresh (some oid ∷ ns) = fresh ∷ made_objects (suc fresh) ns

-- How many entries are made for a user: one for each node up to the first that is none.
abbrev pub made_entries : List Bool → ℕ
made_entries [] = 0
made_entries (false ∷ nodes) = 0
made_entries (true ∷ nodes) = suc (made_entries nodes)

-- The entries that are made for all users.
abbrev pub made_all : ℕ → List (ℤ × List Bool) → List ℕ
made_all fresh [] = []
made_all fresh ((uid, nodes) ∷ users) =
    numbers (made_entries nodes) fresh ++ made_all (fresh + made_entries nodes) users

abbrev pub mem : ℤ → List ℤ → Bool
mem k [] = false
mem k (j ∷ js) = (k ==ℤ j) || mem k js

-- The machines whose id was read before, from one that is kept.
abbrev pub repeated : List ℤ → ℕ → List (Option ℤ) → List ℕ
repeated seen fresh [] = []
repeated seen fresh (none ∷ ns) = repeated seen fresh ns
repeated seen fresh (some oid ∷ ns) =
    if mem oid seen
    then fresh ∷ repeated seen (suc fresh) ns
    else repeated (oid ∷ seen) (suc fresh) ns

abbrev pub are_entries : List Bool → Bool
are_entries [] = true
are_entries (n ∷ nodes) = n && are_entries nodes

-- The entries of the users that have a node that is no entry, or whose id has a list already.
abbrev pub spilled : List ℤ → ℕ → List (ℤ × List Bool) → List ℕ
spilled seen fresh [] = []
spilled seen fresh ((uid, []) ∷ users) = spilled seen fresh users
spilled seen fresh ((uid, n ∷ ns) ∷ users) =
    let after = fresh + made_entries (n ∷ ns) in
    if are_entries (n ∷ ns) && not (mem uid seen)
    then spilled (uid ∷ seen) after users
    else numbers (made_entries (n ∷ ns)) fresh ++ spilled seen after users
