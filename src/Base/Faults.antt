-- ===== src/Base/Faults.antt =====
-- The outcome of a C function: it returns, or it runs into one of the faults named here, after which
-- C gives the run no meaning or the process is aborted.
use mathlib.Core.Bool.{Bool, true, false}
use mathlib.Core.Option.{Option, none, some}

pub data Fault : Type 0 where
  -- a NULL pointer is read or written through
  null_deref : Fault
  -- an `assert` fails
  assertion : Fault
  -- a heap object is used after `free`
  use_after_free : Fault
  -- a variable is read before it is set
  uninitialised : Fault
  -- an `int` that holds a length becomes negative
  negative_length : Fault
  -- a write past the end of an array
  overrun : Fault
  -- a node is put on a list while it stands on another, which breaks both
  list_corrupted : Fault
  -- a loop of the model has used up the rounds that it was given
  no_rounds : Fault

pub data Outcome {ℓ} (A : Type ℓ) : Type ℓ where
  ok : A → Outcome A
  fault : Fault → Outcome A

infixl 5 ◌>>=◌ ◌>>◌
abbrev pub ◌>>=◌ {ℓ κ} : {A : Type ℓ} {B : Type κ} → Outcome A → (A → Outcome B) → Outcome B
ok a >>= f = f a
fault e >>= f = fault e

abbrev pub ◌>>◌ {ℓ} : {B : Type ℓ} → Outcome (Unit {0}) → Outcome B → Outcome B
m >> k = m >>= λ _. k

-- `assert(b)`.
abbrev pub check : Bool → Outcome (Unit {0})
check true = ok tt
check false = fault assertion

-- A pointer that must not be NULL where it is used.
abbrev pub deref {ℓ} : {A : Type ℓ} → Option A → Outcome A
deref none = fault null_deref
deref (some a) = ok a

-- A run that returns, with what holds of the result.
abbrev pub Returns {ℓ} : {A : Type ℓ} → (A → Type 0) → Outcome A → Type 0
Returns P (ok a) = P a
Returns P (fault e) = ⊥

-- To go on after a call that returns.
pub Returns->>= :
    {A B : Type 0} (P : A → Type 0) (Q : B → Type 0) (x : Outcome A) (f : A → Outcome B)
    → Returns P x
    → ((a : A) → P a → Returns Q (f a))
    → Returns Q (x >>= f)
Returns->>= P Q (ok a) f p h = h a p
Returns->>= P Q (fault e) f p h = absurd p

pub Returns-mono :
    {A : Type 0} (P Q : A → Type 0) (x : Outcome A)
    → Returns P x
    → ((a : A) → P a → Q a)
    → Returns Q x
Returns-mono P Q (ok a) p h = h a p
Returns-mono P Q (fault e) p h = absurd p

pub Returns-both :
    {A : Type 0} (P Q : A → Type 0) (x : Outcome A)
    → Returns P x
    → Returns Q x
    → Returns (λ a. P a × Q a) x
Returns-both P Q (ok a) p q = (p, q)
Returns-both P Q (fault e) p q = absurd p
