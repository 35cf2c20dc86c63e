-- ===== src/Prelude/Outcomes.antt =====
-- What a call does: it returns, or it stops the process (a failed assertion, an access through the
-- null pointer, an invalid parameter of the C runtime).
use mathlib.Core.Bool.{Bool, true, false}
use mathlib.Core.Option.{Option, none, some}
use mathlib.Core.Path.{◌≡◌, refl}
use mathlib.Core.Logic.{◌⊎◌, inl, inr}

pub data Outcome {ℓ} (A : Type ℓ) : Type ℓ where
  returns : A → Outcome A
  crashes : Outcome A

infixl 5 ◌>>=◌ ◌>>◌
abbrev pub ◌>>=◌ {ℓ κ} : {A : Type ℓ} {B : Type κ} → Outcome A → (A → Outcome B) → Outcome B
returns a >>= f = f a
crashes >>= f = crashes

abbrev pub ◌>>◌ {ℓ} : {B : Type ℓ} → Outcome (Unit {0}) → Outcome B → Outcome B
m >> k = m >>= λ _. k

-- `assert(e)` and `CRASH_ASSERT(e)`.
abbrev pub assert : Bool → Outcome (Unit {0})
assert true = returns tt
assert false = crashes

-- The object behind a pointer that may be null.
abbrev pub deref {ℓ} : {A : Type ℓ} → Option A → Outcome A
deref none = crashes
deref (some a) = returns a

-- Total correctness: the call returns, and what it returns satisfies `P`.
abbrev pub Returns {ℓ} : {A : Type ℓ} → Outcome A → (A → Type 0) → Type 0
Returns crashes P = ⊥
Returns (returns a) P = P a

pub Returns->>= {ℓ κ} :
    {A : Type ℓ} {B : Type κ} (m : Outcome A) (f : A → Outcome B) (P : A → Type 0) (Q : B → Type 0)
    → Returns m P
    → ((a : A) → P a → Returns (f a) Q)
    → Returns (m >>= f) Q
Returns->>= (returns a) f P Q h k = k a h
Returns->>= crashes f P Q h k = absurd h

pub Returns_mono {ℓ} :
    {A : Type ℓ} (m : Outcome A) (P Q : A → Type 0)
    → Returns m P
    → ((a : A) → P a → Q a)
    → Returns m Q
Returns_mono (returns a) P Q h k = k a h
Returns_mono crashes P Q h k = absurd h

pub Returns_value {ℓ} :
    {A : Type ℓ} (m : Outcome A) (P : A → Type 0) → Returns m P → (a : A) × (m ≡ returns a) × P a
Returns_value (returns a) P h = (a, refl, h)
Returns_value crashes P h = absurd h

-- To split on what a call does and keep the equation.
pub Outcome-cases {ℓ} : {A : Type ℓ} (m : Outcome A) → (m ≡ crashes) ⊎ ((a : A) × (m ≡ returns a))
Outcome-cases crashes = inl refl
Outcome-cases (returns a) = inr (a, refl)
