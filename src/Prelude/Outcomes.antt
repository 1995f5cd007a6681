-- ===== src/Prelude/Outcomes.antt =====
-- What a call of C++ code does: it returns, it runs into undefined behaviour, or it is still in a
-- loop when the fuel of the model is used up.
use mathlib.Core.Path.{◌≡◌, refl, sym, subst}
use mathlib.Core.Bool.{Bool, true, false}
use mathlib.Core.Option.{Option, none, some}
use rio_iocp_server.Prelude.Tests.{if◌then◌else◌}

pub data Outcome {ℓ} (A : Type ℓ) : Type ℓ where
  ok : A → Outcome A
  ub : Outcome A
  running : Outcome A

infixl 5 ◌>>=◌
abbrev pub ◌>>=◌ {ℓ κ} : {A : Type ℓ} {B : Type κ} → Outcome A → (A → Outcome B) → Outcome B
ok a >>= f = f a
ub >>= f = ub
running >>= f = running

-- What holds of the result when there is one.
abbrev pub IfOk {ℓ} : {A : Type ℓ} → (A → Type 0) → Outcome A → Type 0
IfOk P (ok a) = P a
IfOk P ub = Unit
IfOk P running = Unit

pub IfOk-bind :
    {A : Type 0} {B : Type 0} (P : A → Type 0) (Q : B → Type 0) (o : Outcome A) (f : A → Outcome B)
    → IfOk P o
    → ((a : A) → P a → IfOk Q (f a))
    → IfOk Q (o >>= f)
IfOk-bind P Q (ok a) f p q = q a p
IfOk-bind P Q ub f p q = tt
IfOk-bind P Q running f p q = tt

pub IfOk_ok : {A : Type 0} (P : A → Type 0) (o : Outcome A) (a : A) → IfOk P o → o ≡ ok a → P a
IfOk_ok P o a p e = subst (IfOk P) e p

pub IfOk-bind_any :
    {A : Type 0} {B : Type 0} (Q : B → Type 0) (o : Outcome A) (f : A → Outcome B)
    → ((a : A) → IfOk Q (f a))
    → IfOk Q (o >>= f)
IfOk-bind_any Q (ok a) f q = q a
IfOk-bind_any Q ub f q = tt
IfOk-bind_any Q running f q = tt

pub IfOk-imp :
    {A : Type 0} (P Q : A → Type 0) (o : Outcome A) → ((a : A) → P a → Q a) → IfOk P o → IfOk Q o
IfOk-imp P Q (ok a) f p = f a p
IfOk-imp P Q ub f p = tt
IfOk-imp P Q running f p = tt

-- The object of a pointer that may be null.
abbrev pub deref {ℓ} : {A : Type ℓ} → Option A → Outcome A
deref none = ub
deref (some a) = ok a

pub bind_ok :
    {A B : Type 0} {o : Outcome A} (a : A) (f : A → Outcome B) → o ≡ ok a → (o >>= f) ≡ f a
bind_ok a f e = subst (λ p. (p >>= f) ≡ f a) (sym e) refl

pub bind_ub : {A B : Type 0} {o : Outcome A} (f : A → Outcome B) → o ≡ ub → (o >>= f) ≡ ub
bind_ub f e = subst (λ p. (p >>= f) ≡ ub) (sym e) refl

-- A test of which both branches return.
pub if_ok :
    {A : Type 0} (b : Bool) {x y : Outcome A} {x' y' : A}
    → x ≡ ok x'
    → y ≡ ok y'
    → (if b then x else y) ≡ ok (if b then x' else y')
if_ok true p q = p
if_ok false p q = q
