-- ===== src/Prelude/Outcomes.antt =====
-- The result of code that may stop at a failed `assert` or at a null dereference.
use mathlib.Core.Path.{◌≡◌, refl, subst}
use mathlib.Core.Bool.{Bool, true, false}

pub data Outcome {ℓ} (A : Type ℓ) : Type ℓ where
  ok : A → Outcome A
  abort : Outcome A

infixl 5 ◌>>=◌ ◌>>◌
abbrev pub ◌>>=◌ {ℓ κ} : {A : Type ℓ} {B : Type κ} → Outcome A → (A → Outcome B) → Outcome B
ok a >>= f = f a
abort >>= f = abort

abbrev pub ◌>>◌ {ℓ} : {B : Type ℓ} → Outcome (Unit {0}) → Outcome B → Outcome B
m >> k = m >>= λ _. k

abbrev pub assert : Bool → Outcome (Unit {0})
assert true = ok tt
assert false = abort

-- The code runs to its end, and its result has the property.
abbrev pub Returns {ℓ} : {A : Type ℓ} → Outcome A → (A → Type 0) → Type 0
Returns (ok a) P = P a
Returns abort P = ⊥

pub Returns-eq {ℓ} :
    {A : Type ℓ} (P : A → Type 0) (m : Outcome A) → Returns m P → (a : A) × (m ≡ ok a) × P a
Returns-eq P (ok a) h = (a, refl, h)
Returns-eq P abort h = absurd h

-- A step that returns hands its result on.
pub Returns-bind {ℓ κ} :
    {A : Type ℓ} {B : Type κ} (P : A → Type 0) (Q : B → Type 0) (m : Outcome A) (f : A → Outcome B)
    → Returns m P
    → ((a : A) → P a → Returns (f a) Q)
    → Returns (m >>= f) Q
Returns-bind P Q (ok a) f h k = k a h
Returns-bind P Q abort f h k = absurd h

pub Returns-mono {ℓ} :
    {A : Type ℓ} (P Q : A → Type 0) (m : Outcome A)
    → Returns m P
    → ((a : A) → P a → Q a)
    → Returns m Q
Returns-mono P Q (ok a) h k = k a h
Returns-mono P Q abort h k = absurd h

pub Returns-both {ℓ} :
    {A : Type ℓ} (P Q : A → Type 0) (m : Outcome A)
    → Returns m P
    → Returns m Q
    → Returns m (λ a. P a × Q a)
Returns-both P Q (ok a) h k = (h, k)
Returns-both P Q abort h k = absurd h

-- If the code runs to its end, its result has the property.
abbrev pub Safely {ℓ} : {A : Type ℓ} → Outcome A → (A → Type 0) → Type 0
Safely (ok a) P = P a
Safely abort P = Unit {0}

pub Safely-ok {ℓ} :
    {A : Type ℓ} (P : A → Type 0) {m : Outcome A} (a : A) → Safely m P → m ≡ ok a → P a
Safely-ok P {m} a s e = subst (λ r. Safely r P) e s

pub Safely-bind {ℓ κ} :
    {A : Type ℓ} {B : Type κ} (P : A → Type 0) (Q : B → Type 0) (m : Outcome A) (f : A → Outcome B)
    → Safely m P
    → ((a : A) → P a → Safely (f a) Q)
    → Safely (m >>= f) Q
Safely-bind P Q (ok a) f h k = k a h
Safely-bind P Q abort f h k = tt

pub Safely-mono {ℓ} :
    {A : Type ℓ} (P Q : A → Type 0) (m : Outcome A)
    → Safely m P
    → ((a : A) → P a → Q a)
    → Safely m Q
Safely-mono P Q (ok a) h k = k a h
Safely-mono P Q abort h k = tt
