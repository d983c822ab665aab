-- ===== src/Base/Outcome.antt =====
-- What a piece of C code comes to: a value, or undefined behaviour (a NULL dereference, a signed
-- overflow, a use of freed memory), which is `fault`.
use Prim.Native.Nat.{ℕ, ◌+◌}
use mathlib.Core.Path.{◌≡◌, refl, subst}
use mathlib.Core.Logic.{◌⊎◌, inl, inr}
use mathlib.Core.Option.{Option, none, some}
use cs.Base.Tests.{ltb, if◌then◌else◌}

pub data Outcome {ℓ} (A : Type ℓ) : Type ℓ where
  ok : A → Outcome A
  fault : Outcome A

infixl 5 ◌>>=◌ ◌>>◌
abbrev pub ◌>>=◌ {ℓ κ} : {A : Type ℓ} {B : Type κ} → Outcome A → (A → Outcome B) → Outcome B
ok a >>= f = f a
fault >>= f = fault

abbrev pub ◌>>◌ {ℓ κ} : {A : Type ℓ} {B : Type κ} → Outcome A → Outcome B → Outcome B
m >> k = m >>= λ _. k

-- The largest `int`.
abbrev pub int_max : ℕ
int_max = 2147483647

-- `n + 1` on an `int` that is not negative; a signed overflow is undefined.
abbrev pub int_inc : ℕ → Outcome ℕ
int_inc n = if ltb n int_max then ok (n + 1) else fault

-- A read through a pointer.
abbrev pub deref {ℓ} : {A : Type ℓ} → Option A → Outcome A
deref none = fault
deref (some a) = ok a

pub ok-injective {ℓ} : {A : Type ℓ} {a b : A} → ok a ≡ ok b → a ≡ b
ok-injective e = cc

pub Outcome-cases {ℓ} : {A : Type ℓ} (o : Outcome A) → (o ≡ fault) ⊎ ((a : A) × (o ≡ ok a))
Outcome-cases (ok a) = inr (a, refl)
Outcome-cases fault = inl refl

-- What holds of the result of a piece of code, if it comes to one.
abbrev pub Ends {ℓ κ} : {A : Type ℓ} → (A → Type κ) → Outcome A → Type κ
Ends P (ok a) = P a
Ends P fault = Unit

pub Ends-bind {ℓ κ ν μ} :
    {A : Type ℓ} {B : Type κ} (Q : A → Type ν) (P : B → Type μ) (m : Outcome A) (f : A → Outcome B)
    → Ends Q m
    → ((a : A) → Q a → Ends P (f a))
    → Ends P (m >>= f)
Ends-bind Q P (ok a) f h k = k a h
Ends-bind Q P fault f h k = tt

pub Ends-bind_any {ℓ κ μ} :
    {A : Type ℓ} {B : Type κ} (P : B → Type μ) (m : Outcome A) (f : A → Outcome B)
    → ((a : A) → Ends P (f a))
    → Ends P (m >>= f)
Ends-bind_any P (ok a) f k = k a
Ends-bind_any P fault f k = tt

pub Ends-ok {ℓ κ} :
    {A : Type ℓ} (P : A → Type κ) (m : Outcome A) {a : A} → Ends P m → m ≡ ok a → P a
Ends-ok P m h e = subst (Ends P) e h

pub Ends-deref {ℓ κ} :
    {A : Type ℓ} (P : A → Type κ) (p : Option A) → ((a : A) → p ≡ some a → P a) → Ends P (deref p)
Ends-deref P none h = tt
Ends-deref P (some a) h = h a refl
