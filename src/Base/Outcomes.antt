-- ===== src/Base/Outcomes.antt =====
-- What a C function does besides returning: it may read or write through a null pointer or past
-- an array. A loop with fuel may run out of it.
use mathlib.Core.Path.{◌≡◌, refl, subst}
use mathlib.Core.Logic.{◌⊎◌, inl, inr}

pub data Fault : Type 0 where
  null_deref out_of_bounds out_of_fuel : Fault

pub data Outcome {ℓ} (A : Type ℓ) : Type ℓ where
  ok : A → Outcome A
  fault : Fault → Outcome A

-- `abbrev`, so that `ok a >>= f` computes wherever it stands.
infixl 5 ◌>>=◌
abbrev pub ◌>>=◌ {ℓ κ} : {A : Type ℓ} {B : Type κ} → Outcome A → (A → Outcome B) → Outcome B
ok a >>= f = f a
fault e >>= f = fault e

-- What holds of the result, if there is one.
abbrev pub Ensures {ℓ κ} : {A : Type ℓ} → (A → Type κ) → Outcome A → Type κ
Ensures P (ok a) = P a
Ensures P (fault f) = Unit

pub Ensures-bind {ℓ κ ι} :
    {A : Type ℓ} {B : Type κ} (P : A → Type ι) (Q : B → Type ι) (m : Outcome A) (f : A → Outcome B)
    → ((a : A) → P a → Ensures Q (f a))
    → Ensures P m
    → Ensures Q (m >>= f)
Ensures-bind P Q (ok a) f h p = h a p
Ensures-bind P Q (fault e) f h p = tt

pub Ensures-ok {ℓ κ} :
    {A : Type ℓ} (P : A → Type κ) (m : Outcome A) {a : A} → m ≡ ok a → Ensures P m → P a
Ensures-ok P m e h = subst (Ensures P) e h

pub Outcome-cases {ℓ} :
    {A : Type ℓ} (o : Outcome A) → ((a : A) × (o ≡ ok a)) ⊎ ((f : Fault) × (o ≡ fault f))
Outcome-cases (ok a) = inl (a, refl)
Outcome-cases (fault f) = inr (f, refl)

-- what holds of a result whatever the step before it gives
pub Ensures-then {ℓ κ ι} :
    {A : Type ℓ} {B : Type κ} (Q : B → Type ι) (m : Outcome A) (f : A → Outcome B)
    → ((a : A) → Ensures Q (f a))
    → Ensures Q (m >>= f)
Ensures-then Q (ok a) f h = h a
Ensures-then Q (fault e) f h = tt
