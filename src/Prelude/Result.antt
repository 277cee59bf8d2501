-- ===== src/Prelude/Result.antt =====
-- The outcome of Go code that may stop with a run-time panic (an index out of range, a nil
-- dereference, a failed type assertion) or by an error that the interpreter raises.
use mathlib.Core.Path.{◌≡◌, refl}
use mathlib.Core.Logic.{◌⊎◌, inl, inr}

pub data Fault : Type 0 where
  out_of_range raised not_implemented type_assertion : Fault

pub data Result {ℓ} (A : Type ℓ) : Type ℓ where
  ok : A → Result A
  panic : Fault → Result A

infixl 5 ◌>>=◌
abbrev pub ◌>>=◌ {ℓ m} : {X : Type ℓ} {Y : Type m} → Result X → (X → Result Y) → Result Y
panic why >>= next = panic why
ok x >>= next = next x

pub ok_injective {ℓ} : {X : Type ℓ} {x y : X} → ok x ≡ ok y → x ≡ y
ok_injective e = cc

-- A sequence that succeeds has a first part that does.
pub bind-ok {ℓ m} :
    {X : Type ℓ} {Y : Type m} (x : Result X) (f : X → Result Y) (y : Y)
    → (x >>= f) ≡ ok y
    → (a : X) × (x ≡ ok a) × (f a ≡ ok y)
bind-ok (panic why) f y e = absurd cc
bind-ok (ok a) f y e = (a, refl, e)

pub Result-cases {ℓ} :
    {X : Type ℓ} (r : Result X) → ((why : Fault) × (r ≡ panic why)) ⊎ ((x : X) × (r ≡ ok x))
Result-cases (panic why) = inl (why, refl)
Result-cases (ok x) = inr (x, refl)
