-- ===== src/Xml/Memory/Lives.antt =====
-- Which lives of an object give back what they took.
use one_fass.Base.{
  ap, inr, inl, false, suc, Among, if◌then◌else◌, ◌⊎◌, some, none, ◌≤◌, Bool, ◌<◌, ℕ, true, List,
  [], ◌∷◌, ◌==◌, ◌≡◌, refl, arith, All,
}
use one_fass.Outcome.{◌>>=◌, done, faults}
use one_fass.Xml.Memory.{
  init, Heap, xml_parse, Object, refreshes, node_life, cleanup, pool_life, remove,
}

-- What else the program holds, below the next number.
abbrev pub IsBelow : ℕ → List ℕ → Type 0
IsBelow n = All (λ m. m < n)

==_refl : (n : ℕ) → (n == n) ≡ true
==_refl n = ground arith

remove_head : (n : ℕ) (ms : List ℕ) → remove n (n ∷ ms) ≡ done ms
unfolding remove
remove_head n ms = rw (==_refl n) refl

remove_missing : (n : ℕ) (ms : List ℕ) → IsBelow n ms → remove n ms ≡ faults
unfolding remove
remove_missing n [] h = refl
remove_missing n (m ∷ ms) (lt, h) = ground (arith, remove_missing n ms h)

IsBelow-mono : (m n : ℕ) (ms : List ℕ) → m ≤ n → IsBelow m ms → IsBelow n ms
IsBelow-mono m n [] le h = tt
IsBelow-mono m n (k ∷ ms) le (lt, h) = (omega arith, IsBelow-mono m n ms le h)

-- An object with the document d and the context c, among others.
abbrev owning : ℕ → ℕ → List ℕ → List ℕ → ℕ → Bool → Object
owning d c docs ctxs fresh thrown = record {
  xml = some d;
  ctx = some c;
  heap = record { docs = d ∷ docs; ctxs = c ∷ ctxs; fresh = fresh };
  thrown = thrown;
}

cleanup-owning :
    (d c : ℕ) (docs ctxs : List ℕ) (n : ℕ) (thrown : Bool)
    → cleanup (owning d c docs ctxs n thrown)
      ≡ done (record {
        xml = some d;
        ctx = some c;
        heap = record { docs = docs; ctxs = ctxs; fresh = n };
        thrown = thrown;
      })
unfolding cleanup
cleanup-owning d c docs ctxs n thrown = rw (==_refl d, ==_refl c) refl

-- The pointer to a context that has been freed.
abbrev dangling : ℕ → List ℕ → List ℕ → ℕ → Object
dangling c docs ctxs n = record {
  xml = none;
  ctx = some c;
  heap = record { docs = docs; ctxs = ctxs; fresh = n };
  thrown = true;
}

cleanup-dangling :
    (c : ℕ) (docs ctxs : List ℕ) (n : ℕ)
    → IsBelow c ctxs
    → cleanup (dangling c docs ctxs n) ≡ faults
unfolding cleanup
cleanup-dangling c docs ctxs n h = rw (remove_missing c ctxs h) refl

refreshes-dangling :
    (answers : List Bool) (c : ℕ) (docs ctxs : List ℕ) (n : ℕ)
    → IsBelow c ctxs
    → (refreshes answers (dangling c docs ctxs n) >>= cleanup) ≡ faults
unfolding refreshes
refreshes-dangling [] c docs ctxs n h = cleanup-dangling c docs ctxs n h
refreshes-dangling (parsed ∷ answers) c docs ctxs n h = rw (cleanup-dangling c docs ctxs n h) refl

abbrev IsParsed : List Bool → Type 0
IsParsed = All (λ parsed. parsed ≡ true)

refreshes_lem :
    (answers : List Bool) (d c : ℕ) (docs ctxs : List ℕ) (n : ℕ) (thrown : Bool)
    → IsBelow c ctxs
    → c < n
    → (IsParsed answers
        × ((d' c' m : ℕ) × (refreshes answers (owning d c docs ctxs n thrown)
              ≡ done (owning d' c' docs ctxs m thrown))))
      ⊎ (Among false answers
          × ((refreshes answers (owning d c docs ctxs n thrown) >>= cleanup) ≡ faults))
unfolding refreshes xml_parse
refreshes_lem [] d c docs ctxs n thrown h lt = inl (tt, (d, c, n, refl))
refreshes_lem (false ∷ answers) d c docs ctxs n thrown h lt = inr (
  inl refl,
  rw (cleanup-owning d c docs ctxs n thrown) (refreshes-dangling answers c docs ctxs n h),
)
refreshes_lem (true ∷ answers) d c docs ctxs n thrown h lt =
    elim (refreshes_lem answers n (suc n) docs ctxs (suc (suc n)) thrown
      (IsBelow-mono c (suc n) ctxs (omega arith) h) (omega arith)) [
        | inl (all, (d', c', m, e)) ↦
            inl ((refl, all), (d', c', m, rw (cleanup-owning d c docs ctxs n thrown) e))
        | inr (some_failed, e) ↦ inr (inr some_failed, rw (cleanup-owning d c docs ctxs n thrown) e)
      ]

-- A pool, from its constructor to its destructor, either reads every answer, and then gives back each
-- document and context that it took; or some answer is no document, and then it frees a context
-- twice, in the next `set_up` or in the destructor. The numbers that are taken are below the next one.
pub pool_life_lem :
    (answers : List Bool) (h : Heap)
    → IsBelow h.fresh h.ctxs
    → (IsParsed answers × ((m : ℕ) × (pool_life answers h ≡ done (record h { fresh = m }))))
      ⊎ (Among false answers × (pool_life answers h ≡ faults))
unfolding pool_life refreshes cleanup
pool_life_lem answers h below =
    elim (refreshes_lem answers h.fresh (suc h.fresh) h.docs h.ctxs (suc (suc h.fresh)) false
      (IsBelow-mono h.fresh (suc h.fresh) h.ctxs (omega arith) below) (omega arith)) [
        | inl (all, (d, c, m, e)) ↦
            inl (all, (m, rw (e, cleanup-owning d c h.docs h.ctxs m false) refl))
        | inr (some_failed, e) ↦ inr (some_failed, ap (λ r. r >>= λ gone. done gone.heap) e)
      ]

-- A virtual machine or an entry whose node can be copied gives back what it took. Where the node cannot
-- be copied, `init` frees both members before it throws, and the destructor of the base frees them
-- again.
pub node_life_lem :
    (copied : Bool) (h : Heap)
    → IsBelow h.fresh h.docs
    → IsBelow h.fresh h.ctxs
    → node_life copied h
      ≡ (if copied then done (record h { fresh = suc (suc h.fresh) }) else faults)
unfolding node_life init cleanup
node_life_lem true h docs ctxs =
    rw (cleanup-owning h.fresh (suc h.fresh) h.docs h.ctxs (suc (suc h.fresh)) false) refl
node_life_lem false h docs ctxs =
    rw (==_refl (suc h.fresh), ==_refl h.fresh, remove_missing h.fresh h.docs docs) refl
