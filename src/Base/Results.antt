-- ===== src/Base/Results.antt =====
-- Fallible C code: a value, or the way in which the program stops.
use mathlib.Core.Path.{◌≡◌, refl}
use mathlib.Core.Bool.{Bool, true, false}

-- `assertion` is a failed `assert`, `exits` a call of `exit`, `overrun` an access outside an
-- array, through a null pointer or to freed memory and `division` one by zero, which C leaves undefined, and `no_fuel` no C behaviour: a loop of the model ran out.
pub data Fault : Type 0 where
  assertion exits overrun division no_fuel : Fault

pub data Result {ℓ} (A : Type ℓ) : Type ℓ where
  ok : A → Result A
  err : Fault → Result A

-- Sequencing: a fault ends the computation.
infixl 5 ◌>>=◌ ◌>>◌
abbrev pub ◌>>=◌ {ℓ₁ ℓ₂} : {X : Type ℓ₁} {Y : Type ℓ₂} → Result X → (X → Result Y) → Result Y
err fault >>= next = err fault
ok x >>= next = next x

-- Goes on if the test holds, and stops in the given way if not.
abbrev pub check : Bool → Fault → Result (Unit {0})
check false fault = err fault
check true fault = ok tt

-- `assert(b)`
abbrev pub assert : Bool → Result (Unit {0})
assert b = check b assertion

abbrev pub ◌>>◌ {ℓ₁} : {Y : Type ℓ₁} → Result (Unit {0}) → Result Y → Result Y
step >> rest = step >>= λ done. rest

-- A computation that succeeds has succeeded in its first step.
pub >>=-ok {ℓ₁ ℓ₂} :
    {X : Type ℓ₁} {Y : Type ℓ₂} {y : Y} (r : Result X) (next : X → Result Y)
    → (r >>= next) ≡ ok y
    → (x : X) × (r ≡ ok x) × (next x ≡ ok y)
>>=-ok (err fault) next e = cc
>>=-ok (ok x) next e = (x, refl, e)
