-- ===== src/Base/Ensuring.antt =====
-- Runs that return only with what holds of the result, and never follow a pointer to a released object,
-- whatever other faults they may run into, with a rule for each way to build a run.
use mathlib.Core.Path.{◌≡◌, refl, subst}
use mathlib.Core.Logic.{◌≢◌}
use mathlib.Core.Bool.{Bool, true, false}
use mathlib.Core.Option.{Option, none, some}
use web_tunnel.Base.Tests.{if◌then◌else◌}
use web_tunnel.Base.Faults.{Fault, use_after_free, Outcome, ok, fault, ◌>>=◌, deref, check, Returns}

pub record Ensures {ℓ} {A : Type ℓ} (P : A → Type 0) (o : Outcome A) : Type ℓ where
  pub at : (a : A) → o ≡ ok a → P a
  pub never_freed : o ≢ fault use_after_free

-- A fault other than the use of a released object.
abbrev pub IsOther : Fault → Type 0
IsOther Fault.null_deref = Unit {0}
IsOther Fault.assertion = Unit {0}
IsOther Fault.use_after_free = ⊥
IsOther Fault.uninitialised = Unit {0}
IsOther Fault.negative_length = Unit {0}
IsOther Fault.overrun = Unit {0}
IsOther Fault.list_corrupted = Unit {0}
IsOther Fault.no_rounds = Unit {0}

ok_cases {ℓ} : {A : Type ℓ} (P : A → Type 0) (a b : A) → P a → ok a ≡ ok b → P b
ok_cases P a b h e = subst P (cc) h

-- A result is one fault only.
fault_unique :
    {A B : Type 0} (e f : Fault) (o : Outcome A) (r : Outcome B)
    → o ≡ fault e
    → r ≡ fault e
    → r ≡ fault f
    → o ≡ fault f
fault_unique e f o r p q t = let x : e ≡ f = cc in subst (λ y. o ≡ fault y) x p

fault_cases :
    {A : Type 0} (e f : Fault) (o : Outcome A) → IsOther e → o ≡ fault e → o ≡ fault f → IsOther f
fault_cases e f o h p q = let x : e ≡ f = cc in subst IsOther x h

module _ {A : Type 0} {P : A → Type 0} where
  pub Ensures-ok : {a : A} → P a → Ensures P (ok a)
  Ensures-ok {a = a} h = record { at = λ b e. ok_cases P a b h e; never_freed = λ e. cc }

  pub Ensures-fault : (e : Fault) → IsOther e → Ensures P (fault e)
  Ensures-fault e h = record {
    at = λ a p. absurd (cc);
    never_freed = λ p. fault_cases e use_after_free (fault e) h refl p;
  }

  pub Ensures-if :
      (c : Bool) {x y : Outcome A} → Ensures P x → Ensures P y → Ensures P (if c then x else y)
  Ensures-if true h k = h
  Ensures-if false h k = k

  pub Ensures-Option :
      {B : Type 0} (o : Option B) {x : Outcome A} {f : B → Outcome A}
      → Ensures P x
      → ((b : B) → Ensures P (f b))
      → Ensures P (elim o as (λ _. Outcome A) [ none ↦ x | some b ↦ f b ])
  Ensures-Option none h k = h
  Ensures-Option (some b) h k = k b

  -- The same with the equation.
  pub Ensures-cases :
      {B : Type 0} (o : Option B) {x : Outcome A} {f : B → Outcome A}
      → Ensures P x
      → ((b : B) → o ≡ some b → Ensures P (f b))
      → Ensures P (elim o as (λ _. Outcome A) [ none ↦ x | some b ↦ f b ])
  Ensures-cases none h k = h
  Ensures-cases (some b) h k = k b refl

  pub Returns-Ensures : (o : Outcome A) → Returns P o → Ensures P o
  Returns-Ensures (ok a) h = Ensures-ok h
  Returns-Ensures (fault e) h = absurd h

module _ {A : Type 0} {P Q : A → Type 0} where
  pub Ensures-mono : {x : Outcome A} → Ensures P x → ((a : A) → P a → Q a) → Ensures Q x
  Ensures-mono h f = record { at = λ a e. f a (h.at a e); never_freed = h.never_freed }

module _ {A B : Type 0} {P : A → Type 0} {Q : B → Type 0} where
  pub Ensures-bind :
      {x : Outcome A} {f : A → Outcome B}
      → Ensures P x
      → ((a : A) → P a → Ensures Q (f a))
      → Ensures Q (x >>= f)
  Ensures-bind {x = ok a} h k = k a (h.at a refl)
  Ensures-bind {x = fault e} {f = f} h k = record {
    at = λ b p. absurd (cc);
    never_freed =
        λ p. h.never_freed (fault_unique e use_after_free (fault e) (fault e >>= f) refl refl p);
  }

-- A run that fails the same way.
pub Ensures-again :
    {A B : Type 0} {P : A → Type 0} {Q : B → Type 0} {o : Outcome A}
    → Ensures P o
    → (e : Fault) → o ≡ fault e
    → Ensures Q (fault e)
Ensures-again {o = o} h e p = record {
  at = λ b q. absurd (cc);
  never_freed = λ q. h.never_freed (fault_unique e use_after_free o (fault e) p refl q);
}

-- A call of which only this is said.
abbrev pub Unfreed : {A : Type 0} → Outcome A → Type 0
Unfreed o = Ensures (λ _. Unit {0}) o

pub check-Ensures : (b : Bool) → Ensures (λ _. b ≡ true) (check b)
check-Ensures true = Ensures-ok refl
check-Ensures false = Ensures-fault Fault.assertion tt

pub deref-Ensures : {A : Type 0} (o : Option A) → Ensures (λ v. o ≡ some v) (deref o)
deref-Ensures none = Ensures-fault Fault.null_deref tt
deref-Ensures (some v) = Ensures-ok refl
