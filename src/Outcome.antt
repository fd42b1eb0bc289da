-- ===== src/Outcome.antt =====
-- What a call comes to: it returns, an exception leaves it, it reads or writes where there is nothing
-- (a null pointer, `end()`, behind an array), or it waits for ever at a lock.
use one_fass.Base.{ℕ, zero, suc, List, [], ◌∷◌, ap, ◌≡◌, refl, Option, none, some}

pub data Outcome {ℓ} (A : Type ℓ) : Type ℓ where
  done : A → Outcome A
  throws : Outcome A
  faults : Outcome A
  blocks : Outcome A

infixl 5 ◌>>=◌
abbrev pub ◌>>=◌ {ℓ κ} : {A : Type ℓ} {B : Type κ} → Outcome A → (A → Outcome B) → Outcome B
done a >>= g = g a
throws >>= g = throws
faults >>= g = faults
blocks >>= g = blocks

abbrev pub or_throw {ℓ} : {A : Type ℓ} → Option A → Outcome A
or_throw none = throws
or_throw (some a) = done a

abbrev pub or_fault {ℓ} : {A : Type ℓ} → Option A → Outcome A
or_fault none = faults
or_fault (some a) = done a

-- Inversion of a bind that returns.
pub >>=-eq-done {ℓ κ} :
    {A : Type ℓ} {B : Type κ} (m : Outcome A) (g : A → Outcome B) {b : B}
    → (m >>= g) ≡ done b
    → (a : A) × (m ≡ done a) × (g a ≡ done b)
>>=-eq-done (done a) g h = (a, refl, h)
>>=-eq-done throws g h = cc
>>=-eq-done faults g h = cc
>>=-eq-done blocks g h = cc

pub done-injective {ℓ} : {A : Type ℓ} (a b : A) → done a ≡ done b → a ≡ b
done-injective {A} a b e = ap {B = A} get e
  where
    get : Outcome A → A
    get (done c) = c
    get _ = a

-- `v[i]` of a vector: behind its end there is nothing to read.
abbrev pub element {ℓ} : {A : Type ℓ} → ℕ → List A → Outcome A
element n [] = faults
element zero (v ∷ vs) = done v
element (suc n) (v ∷ vs) = element n vs

pub or_throw-eq-done {ℓ} : {A : Type ℓ} (o : Option A) {a : A} → or_throw o ≡ done a → o ≡ some a
or_throw-eq-done none e = cc
or_throw-eq-done (some b) e = ap some (done-injective _ _ e)

pub or_fault-eq-done {ℓ} : {A : Type ℓ} (o : Option A) {a : A} → or_fault o ≡ done a → o ≡ some a
or_fault-eq-done none e = cc
or_fault-eq-done (some b) e = ap some (done-injective _ _ e)

-- Laws of the bind.
pub bind_assoc :
    {A B C : Type 0} (o : Outcome A) (g : A → Outcome B) (h : B → Outcome C)
    → ((o >>= g) >>= h) ≡ (o >>= λ a. g a >>= h)
bind_assoc (done a) g h = refl
bind_assoc throws g h = refl
bind_assoc faults g h = refl
bind_assoc blocks g h = refl

pub bind_ap :
    {A B : Type 0} (o : Outcome A) (g h : A → Outcome B)
    → ((a : A) → g a ≡ h a)
    → (o >>= g) ≡ (o >>= h)
bind_ap (done a) g h e = e a
bind_ap throws g h e = refl
bind_ap faults g h e = refl
bind_ap blocks g h e = refl

pub bind_done : {A : Type 0} (o : Outcome A) → (o >>= done) ≡ o
bind_done (done a) = refl
bind_done throws = refl
bind_done faults = refl
bind_done blocks = refl
