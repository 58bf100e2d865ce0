-- ===== src/Base/Ends.antt =====
-- Computations that end: with a value that has a property, or at a fault of the C code. None runs out of fuel.
use mathlib.Core.Path.{◌≡◌, refl, subst}
use mathlib.Core.Logic.{◌≢◌}
use mathlib.Core.Bool.{Bool, true, false}
use Prim.Native.Nat.{ℕ}
use dach.Base.Tests.{if◌then◌else◌, ltb}
use dach.Base.Arrays.{Array, load, store}
use dach.Base.Results.{
  Fault, Result, ok, err, assertion, exits, overrun, no_fuel, assert, check, ◌>>=◌, ◌>>◌,
}

pub record Ends {ℓ} {A : Type ℓ} (P : A → Type 0) (r : Result A) : Type ℓ where
  pub in_time : r ≢ err no_fuel
  pub holds : (x : A) → r ≡ ok x → P x

-- Nothing is said of the value.
abbrev pub Any {ℓ} : {A : Type ℓ} → A → Type 0
Any x = Unit

pub ok-Ends {ℓ} : {A : Type ℓ} (P : A → Type 0) (x : A) → P x → Ends P (ok x)
ok-Ends P x p = record {
  in_time = λ e. cc;
  holds = λ y e. (let same : x ≡ y = cc in subst P same p);
}

pub err-Ends {ℓ} :
    {A : Type ℓ} (P : A → Type 0) (fault : Fault) → fault ≢ no_fuel → Ends P (err fault)
err-Ends P fault h = record {
  in_time = λ e. h (let same : fault ≡ no_fuel = cc in same);
  holds = λ y e. cc;
}

pub weaken-Ends {ℓ} :
    {A : Type ℓ} (P Q : A → Type 0) {r : Result A} → ((x : A) → P x → Q x) → Ends P r → Ends Q r
weaken-Ends P Q h e = record { in_time = e.in_time; holds = λ x eq. h x (e.holds x eq) }

-- A sequence ends if both of its steps do.
pub bind-Ends {ℓ₁ ℓ₂} :
    {A : Type ℓ₁} {B : Type ℓ₂} (P : A → Type 0) (Q : B → Type 0) (r : Result A)
    (next : A → Result B)
    → Ends P r
    → ((x : A) → P x → Ends Q (next x))
    → Ends Q (r >>= next)
bind-Ends P Q (ok x) next e rest = rest x (e.holds x refl)
bind-Ends P Q (err fault) next e rest =
    err-Ends Q fault (λ same. e.in_time (let eq : err fault ≡ err no_fuel = cc in eq))

pub if-Ends {ℓ} :
    {A : Type ℓ} (P : A → Type 0) (b : Bool) (x y : Result A)
    → (b ≡ true → Ends P x)
    → (b ≡ false → Ends P y)
    → Ends P (if b then x else y)
if-Ends P true x y p q = p refl
if-Ends P false x y p q = q refl

pub check-Ends {ℓ} :
    {B : Type ℓ} (Q : B → Type 0) (b : Bool) (fault : Fault) (rest : Result B)
    → fault ≢ no_fuel
    → (b ≡ true → Ends Q rest)
    → Ends Q (check b fault >> rest)
check-Ends Q true fault rest h e = e refl
check-Ends Q false fault rest h e = err-Ends Q fault h

pub assert-Ends {ℓ} :
    {B : Type ℓ} (Q : B → Type 0) (b : Bool) (rest : Result B)
    → (b ≡ true → Ends Q rest)
    → Ends Q (assert b >> rest)
assert-Ends Q b rest e = check-Ends Q b assertion rest (λ x. cc) e

-- The rules for a computation of whose value nothing is said.
module _ {ℓ} {A : Type ℓ} where
  pub Any-ok : (x : A) → Ends Any (ok x)
  Any-ok x = ok-Ends Any x tt

  pub Any-if : (b : Bool) (x y : Result A) → Ends Any x → Ends Any y → Ends Any (if b then x else y)
  Any-if b x y p q = if-Ends Any b x y (λ _. p) (λ _. q)

  pub Any-bind {κ} :
      {B : Type κ} (r : Result A) (next : A → Result B)
      → Ends Any r
      → ((x : A) → Ends Any (next x))
      → Ends Any (r >>= next)
  Any-bind r next e rest = bind-Ends Any Any r next e (λ x _. rest x)

pub Any-assert : (b : Bool) → Ends Any (assert b)
Any-assert true = Any-ok tt
Any-assert false = err-Ends Any assertion (λ e. cc)

pub Any-exits : (b : Bool) → Ends Any (check b exits)
Any-exits true = Any-ok tt
Any-exits false = err-Ends Any exits (λ e. cc)

pub Any-load : (size : ℕ) (a : Array) (i : ℕ) → Ends Any (load size a i)
Any-load size a i = Any-if (ltb i size) _ _ (Any-ok _) (err-Ends Any overrun (λ e. cc))

pub Any-store : (size : ℕ) (a : Array) (i v : ℕ) → Ends Any (store size a i v)
Any-store size a i v = Any-if (ltb i size) _ _ (Any-ok _) (err-Ends Any overrun (λ e. cc))

pub ruleset ending = (Any-bind, Any-if, Any-assert, Any-exits, Any-load, Any-store, Any-ok)
