-- ===== src/Base/Results.antt =====
-- How a C++ call can end: it returns, it throws, or its behaviour is undefined.

use mathlib.Core.Path.{◌≡◌, refl}
use mathlib.Core.Bool.{Bool, true, false}
use os_stream_socket.Base.Tests.{if◌then◌else◌}

infixl 5 ◌>>=◌
pub data Fault : Type 0 where
  runtime_error : Fault
  out_of_bounds : Fault
  out_of_fuel : Fault

pub data Outcome {κ} (Value : Type κ) : Type κ where
  err : (fault : Fault) → Outcome Value
  ok : (value : Value) → Outcome Value

abbrev pub ◌>>=◌ {ℓ κ} :
    {A : Type ℓ} {B : Type κ} (m : Outcome A) (next : A → Outcome B) → Outcome B
err fault >>= next = err fault
ok value >>= next = next value

-- What holds of the value if the call returns.
abbrev pub OnReturn {ℓ κ} : {A : Type ℓ} (R : A → Type κ) → Outcome A → Type κ
OnReturn R (ok value) = R value
OnReturn R (err fault) = Unit

pub bind-OnReturn {ℓ ℓ' κ κ'} :
    {A : Type ℓ} {B : Type ℓ'} (R : A → Type κ) (S : B → Type κ') (m : Outcome A)
    (next : A → Outcome B)
    → OnReturn R m
    → ((a : A) → R a → OnReturn S (next a))
    → OnReturn S (m >>= next)
bind-OnReturn R S (ok value) next r h = h value r
bind-OnReturn R S (err fault) next r h = tt

-- A test, as `if` and as `elim`.
pub if-OnReturn {ℓ κ} :
    {A : Type ℓ} (R : A → Type κ) (b : Bool) (x y : Outcome A)
    → (b ≡ true → OnReturn R x)
    → (b ≡ false → OnReturn R y)
    → OnReturn R (if b then x else y)
if-OnReturn R true x y h h' = h refl
if-OnReturn R false x y h h' = h' refl

pub elim-OnReturn {ℓ κ} :
    {A : Type ℓ} (R : A → Type κ) (b : Bool) (x y : Outcome A)
    → (b ≡ true → OnReturn R x)
    → (b ≡ false → OnReturn R y)
    → OnReturn R (elim b [ true ↦ x | false ↦ y ])
elim-OnReturn R true x y h h' = h refl
elim-OnReturn R false x y h h' = h' refl

pub OnReturn-true {ℓ} : {A : Type ℓ} (m : Outcome A) → OnReturn (λ _. Unit {0}) m
OnReturn-true (ok value) = tt
OnReturn-true (err fault) = tt

pub OnReturn-weaken {ℓ κ κ'} :
    {A : Type ℓ} (R : A → Type κ) (S : A → Type κ') (m : Outcome A)
    → ((a : A) → R a → S a)
    → OnReturn R m
    → OnReturn S m
OnReturn-weaken R S (ok value) h r = h value r
OnReturn-weaken R S (err fault) h r = tt

pub OnReturn-both {ℓ κ κ'} :
    {A : Type ℓ} (R : A → Type κ) (S : A → Type κ') (m : Outcome A)
    → OnReturn R m
    → OnReturn S m
    → OnReturn (λ a. R a × S a) m
OnReturn-both R S (ok value) r s = (r, s)
OnReturn-both R S (err fault) r s = tt

pub bind_assoc {ℓ κ μ} :
    {A : Type ℓ} {B : Type κ} {C : Type μ} (m : Outcome A) (g : A → Outcome B) (h : B → Outcome C)
    → ((m >>= g) >>= h) ≡ (m >>= λ a. g a >>= h)
bind_assoc (ok value) g h = refl
bind_assoc (err fault) g h = refl

-- Calls that go on alike.
pub bind_ext {ℓ κ} :
    {A : Type ℓ} {B : Type κ} (m : Outcome A) (g h : A → Outcome B)
    → ((a : A) → g a ≡ h a)
    → (m >>= g) ≡ (m >>= h)
bind_ext (ok value) g h e = e value
bind_ext (err fault) g h e = refl
