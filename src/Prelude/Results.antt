-- ===== src/Prelude/Results.antt =====
-- What a kernel function comes to: it returns, it calls `panic`, or it does something that C leaves
-- undefined (an access outside an array, a null pointer followed).

use mathlib.Core.Bool.{Bool, true, false}
use mathlib.Core.Path.{◌≡◌, refl}
use mathlib.Core.Logic.{◌⊎◌, inl, inr}

pub data Outcome {ℓ} (A : Type ℓ) : Type ℓ where
  ok : A → Outcome A
  panic : Outcome A
  fault : Outcome A

infixl 5 ◌>>=◌
abbrev pub ◌>>=◌ {ℓ κ} : {V : Type ℓ} {W : Type κ} → Outcome V → (V → Outcome W) → Outcome W
panic >>= next = panic
fault >>= next = fault
ok value >>= next = next value

infixl 5 ◌>>◌
abbrev pub ◌>>◌ {κ} : {W : Type κ} → Outcome (Unit {0}) → Outcome W → Outcome W
first >> next = first >>= λ _. next

-- `if(b) panic(...)`
abbrev pub panic_if : Bool → Outcome (Unit {0})
panic_if true = panic
panic_if false = ok tt

pub ok_injective {ℓ} : {A : Type ℓ} {a b : A} → ok a ≡ ok b → a ≡ b
ok_injective e = cc

-- A result that is no fault: a panic, or a value with a property.
abbrev pub IsSafe {ℓ κ} : {A : Type ℓ} → (A → Type κ) → Outcome A → Type (ℓ ⊔ κ)
IsSafe {A} P r = (r ≡ panic) ⊎ ((a : A) × (r ≡ ok a) × P a)

-- One step after another.
pub IsSafe-bind {ℓ κ ℓ' κ'} :
    {A : Type ℓ} {B : Type ℓ'} (P : A → Type κ) (Q : B → Type κ') (r : Outcome A)
    (next : A → Outcome B)
    → IsSafe P r
    → ((a : A) → P a → IsSafe Q (next a))
    → IsSafe Q (r >>= next)
IsSafe-bind P Q r next (inl e) h = inl (rw e refl)
IsSafe-bind P Q r next (inr (a, e, p)) h = rw e (h a p)
