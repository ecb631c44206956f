-- ===== src/Common/Outcome.antt =====
-- The outcome of a call: a value, an exception, a failed assertion, or undefined behaviour.
use mathlib.Core.Path.{◌≡◌, refl, sym, subst}
use mathlib.Core.Logic.{◌⊎◌, inl, inr}

-- `throw` carries which exception was thrown, `abort` a failed `assert`, `fault` what C++ leaves
-- undefined, such as an access out of bounds or a second `lock` of a mutex by its owner.
pub data Outcome {ℓ κ} (E : Type κ) (A : Type ℓ) : Type (ℓ ⊔ κ) where
  ok : A → Outcome E A
  throw : E → Outcome E A
  abort : Outcome E A
  fault : Outcome E A

infixl 5 ◌>>=◌
abbrev pub ◌>>=◌ {ℓ κ ι} :
    {E : Type κ} {A : Type ℓ} {B : Type ι} → Outcome E A → (A → Outcome E B) → Outcome E B
ok a >>= f = f a
throw e >>= f = throw e
abort >>= f = abort
fault >>= f = fault

pub Outcome-cases {ℓ κ} :
    {E : Type κ} {A : Type ℓ} (o : Outcome E A)
    → ((a : A) × (o ≡ ok a)) ⊎ (((e : E) × (o ≡ throw e)) ⊎ ((o ≡ abort) ⊎ (o ≡ fault)))
Outcome-cases (ok a) = inl (a, refl)
Outcome-cases (throw e) = inr (inl (e, refl))
Outcome-cases abort = inr (inr (inl refl))
Outcome-cases fault = inr (inr (inr refl))

-- The call returns, and its value is as stated: total correctness.
abbrev pub Returns {ℓ κ} : {E : Type κ} {A : Type ℓ} → (A → Type 0) → Outcome E A → Type 0
Returns P (ok a) = P a
Returns P (throw e) = ⊥
Returns P abort = ⊥
Returns P fault = ⊥

pub Returns-of_eq {ℓ κ} :
    {E : Type κ} {A : Type ℓ} (P : A → Type 0) {m : Outcome E A} {a : A}
    → m ≡ ok a
    → P a
    → Returns P m
Returns-of_eq P e h = subst (Returns P) (sym e) h

pub Returns-bind {ℓ κ ι} :
    {E : Type κ} {A : Type ℓ} {B : Type ι} (P : A → Type 0) (Q : B → Type 0) (m : Outcome E A)
    (f : A → Outcome E B)
    → Returns P m
    → ((a : A) → P a → Returns Q (f a))
    → Returns Q (m >>= f)
Returns-bind P Q (ok a) f h k = k a h
Returns-bind P Q (throw e) f h k = h
Returns-bind P Q abort f h k = h
Returns-bind P Q fault f h k = h

pub Returns-mono {ℓ κ} :
    {E : Type κ} {A : Type ℓ} (P Q : A → Type 0) (m : Outcome E A)
    → ((a : A) → P a → Q a)
    → Returns P m
    → Returns Q m
Returns-mono P Q (ok a) k h = k a h
Returns-mono P Q (throw e) k h = h
Returns-mono P Q abort k h = h
Returns-mono P Q fault k h = h
