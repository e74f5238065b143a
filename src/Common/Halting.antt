-- ===== src/Common/Halting.antt =====
-- What a run of kernel code gives: a value, or a halt of the kernel. An `assert` that fails and a
-- call of `panic` (kernel/assert.c) stop the machine for good; an access outside an array is
-- undefined behaviour, and is kept apart as `fault`.
use mathlib.Core.Bool.{Bool, true, false}
use mathlib.Core.Path.{◌≡◌, refl}
use mathlib.Core.Logic.{◌⊎◌, inl, inr}

pub data Halt : Type 0 where
  assertion panic fault : Halt

pub data Outcome {ℓ} (A : Type ℓ) : Type ℓ where
  ok : A → Outcome A
  halt : Halt → Outcome A

infixl 5 ◌>>=◌ ◌>>◌
abbrev pub ◌>>=◌ {ℓ κ} : {A : Type ℓ} {B : Type κ} → Outcome A → (A → Outcome B) → Outcome B
ok a >>= f = f a
halt e >>= f = halt e

abbrev pub ◌>>◌ {ℓ} : {B : Type ℓ} → Outcome (Unit {0}) → Outcome B → Outcome B
m >> k = m >>= λ _. k

-- `assert(b)`
abbrev pub assert : Bool → Outcome (Unit {0})
assert true = ok tt
assert false = halt assertion

-- an access to an array, which is undefined outside its bounds
abbrev pub access : Bool → Outcome (Unit {0})
access true = ok tt
access false = halt fault

-- What holds of a result, if there is one.
abbrev pub OnOk {ℓ κ} : {A : Type ℓ} → (A → Type κ) → Outcome A → Type κ
OnOk P (ok a) = P a
OnOk P (halt e) = Unit

pub OnOk-bind {ℓ κ μ} :
    {A : Type ℓ} {B : Type κ} (P : B → Type μ) (o : Outcome A) (f : A → Outcome B)
    → OnOk (λ a. OnOk P (f a)) o
    → OnOk P (o >>= f)
OnOk-bind P (ok a) f h = h
OnOk-bind P (halt e) f h = tt

pub OnOk-map {ℓ κ μ} :
    {A : Type ℓ} (P : A → Type κ) (Q : A → Type μ) (o : Outcome A)
    → OnOk P o
    → ((a : A) → P a → Q a)
    → OnOk Q o
OnOk-map P Q (ok a) h f = f a h
OnOk-map P Q (halt e) h f = tt

pub bind-OnOk {ℓ κ} :
    {A : Type ℓ} {B : Type κ} (o : Outcome A) (f g : A → Outcome B)
    → OnOk (λ a. f a ≡ g a) o
    → (o >>= f) ≡ (o >>= g)
bind-OnOk (ok a) f g h = h
bind-OnOk (halt e) f g h = refl

pub OnOk-any {ℓ κ} : {A : Type ℓ} (P : A → Type κ) (o : Outcome A) → ((a : A) → P a) → OnOk P o
OnOk-any P (ok a) h = h a
OnOk-any P (halt e) h = tt

pub Outcome-cases {ℓ} :
    {A : Type ℓ} (o : Outcome A) → ((a : A) × (o ≡ ok a)) ⊎ ((e : Halt) × (o ≡ halt e))
Outcome-cases (ok a) = inl (a, refl)
Outcome-cases (halt e) = inr (e, refl)
