-- ===== src/Ar64/Interval.antt =====
-- The interval of the coder and its shifts, without the bits: what the two loops have in common.
use dach.Base.{
  ℕ, zero, suc, ◌+◌, ◌-◌, ◌*◌, ◌^◌, ◌≤◌, ◌<◌, ◌≡◌, ap, arith, List, [], ◌∷◌, length, ◌⊎◌, inl, inr,
}
use native.Mathlib.Decide.{dec_lt}
use native.Mathlib.Nat.{pow-suc}

-- An interval of 32-bit numbers with at least two numbers.
pub record IsInterval (low high : ℕ) : Type 0 where
  pub some_width : low < high
  pub high_lt : high < 2 ^ 32

-- The interval has the middle inside, and more than a quarter on one side of it.
pub record IsNormal (low high : ℕ) : Type 0 where
  pub low_lt : low < 2 ^ 31
  pub high_ge : 2 ^ 31 ≤ high
  pub wide : (low < 2 ^ 30) ⊎ (3 * 2 ^ 30 ≤ high)

-- A shift: both ends lie below the middle, across it in the inner half, or above it. Twice the
-- interval is moved down by the given number of halves.
pub data Move : (v low high low' high' : ℕ) → Type 0 where
  lower : {low high : ℕ} → low < high → high < 2 ^ 31 → Move 0 low high (2 * low) (2 * high + 1)
  across :
      {low high : ℕ}
      → 2 ^ 30 ≤ low
      → low < 2 ^ 31
      → 2 ^ 31 ≤ high
      → high < 3 * 2 ^ 30
      → Move 1 low high (2 * low - 2 ^ 31) (2 * high + 1 - 2 ^ 31)
  upper :
      {low high : ℕ}
      → 2 ^ 31 ≤ low
      → low < high
      → high < 2 ^ 32
      → Move 2 low high (2 * low - 2 ^ 32) (2 * high + 1 - 2 ^ 32)

-- What every shift has in common.
pub record Moved (v low high low' high' : ℕ) : Type 0 where
  pub v_le : v ≤ 2
  pub low_eq : low' + v * 2 ^ 31 ≡ 2 * low
  pub high_eq : high' + v * 2 ^ 31 ≡ 2 * high + 1
  pub interval : IsInterval low' high'

pub Move-Moved :
    {v low high low' high' : ℕ} → Move v low high low' high' → Moved v low high low' high'
Move-Moved (lower p q) = record {
  v_le = omega arith;
  low_eq = omega arith;
  high_eq = omega arith;
  interval = record { some_width = omega arith; high_lt = omega arith };
}
Move-Moved (across p q r s) = record {
  v_le = omega arith;
  low_eq = omega arith;
  high_eq = omega arith;
  interval = record { some_width = omega arith; high_lt = omega arith };
}
Move-Moved (upper p q r) = record {
  v_le = omega arith;
  low_eq = omega arith;
  high_eq = omega arith;
  interval = record { some_width = omega arith; high_lt = omega arith };
}

-- Shifts until the interval is normal, with the halves by which each moved it.
pub data Shifts : (low high low' high' : ℕ) (vs : List ℕ) → Type 0 where
  done : {low high : ℕ} → IsNormal low high → Shifts low high low high []
  next :
      {v low high low₁ high₁ low' high' : ℕ} {vs : List ℕ}
      → Move v low high low₁ high₁
      → Shifts low₁ high₁ low' high' vs
      → Shifts low high low' high' (v ∷ vs)

-- An interval is normal, or a shift applies to it.
step :
    {low high : ℕ}
    → IsInterval low high
    → IsNormal low high ⊎ ((v : ℕ) × (low' : ℕ) × (high' : ℕ) × Move v low high low' high')
step {low} {high} i = elim (dec_lt high (2 ^ 31)) [
  | yes p ↦ inr (0, _, _, lower i.some_width p)
  | no p ↦ elim (dec_lt low (2 ^ 31)) [
    | no q ↦ inr (2, _, _, upper (omega arith) i.some_width i.high_lt)
    | yes q ↦ elim (dec_lt low (2 ^ 30)) [
      | yes a ↦ inl (record { low_lt = q; high_ge = omega arith; wide = inl a })
      | no a ↦ elim (dec_lt high (3 * 2 ^ 30)) [
        | no b ↦ inl (record { low_lt = q; high_ge = omega arith; wide = inr (omega arith) })
        | yes b ↦ inr (1, _, _, across (omega arith) q (omega arith) b)
      ]
    ]
  ]
]

-- The end of the shifts.
pub record Normalised (low high fuel : ℕ) : Type 0 where
  pub low' : ℕ
  pub high' : ℕ
  pub vs : List ℕ
  pub shifts : Shifts low high low' high' vs
  pub few : length vs ≤ fuel
  pub interval : IsInterval low' high'
  pub normal : IsNormal low' high'

-- A shift applies to at most half of all numbers of 32 bits.
Move-narrow : {v low high low' high' : ℕ} → Move v low high low' high' → high < low + 2 ^ 31
Move-narrow (lower p q) = omega arith
Move-narrow (across p q r s) = omega arith
Move-narrow (upper p q r) = omega arith

already :
    {low high : ℕ} (fuel : ℕ) → IsInterval low high → IsNormal low high → Normalised low high fuel
already {low} {high} fuel i n = record {
  low' = low;
  high' = high;
  vs = [];
  shifts = done n;
  few = omega arith;
  interval = i;
  normal = n;
}

after :
    {v low high low' high' : ℕ} (fuel : ℕ)
    → Move v low high low' high'
    → Normalised low' high' fuel
    → Normalised low high (suc fuel)
after {v} fuel m n = record {
  low' = n.low';
  high' = n.high';
  vs = v ∷ n.vs;
  shifts = next m n.shifts;
  few = omega (arith, n.few);
  interval = n.interval;
  normal = n.normal;
}

-- Each shift doubles the width, so there are at most as many as doublings fit into 32 bits.
normalise :
    (fuel : ℕ) {low high : ℕ}
    → IsInterval low high
    → 2 ^ 32 < (high + 1 - low) * 2 ^ suc fuel
    → Normalised low high fuel
normalise zero i h = elim (step i) [
  | inl n ↦ already zero i n
  | inr (v, low', high', m) ↦ absurd (omega (arith, Move-narrow m, i.some_width))
]
normalise (suc fuel) {low} {high} i h = elim (step i) [
  | inl n ↦ already (suc fuel) i n
  | inr (v, low', high', m) ↦
      let d = Move-Moved m in
      let twice : high' + 1 - low' ≡ 2 * (high + 1 - low) =
        omega (arith, d.low_eq, d.high_eq, i.some_width, d.interval.some_width) in
      after fuel m (
        normalise fuel d.interval (
          rw twice (
            omega (
              arith,
              pow-suc 2 (suc fuel),
              ap (λ (t : ℕ). (high + 1 - low) * t) (pow-suc 2 (suc fuel)),
            ))))
]

-- At most 31 shifts make any interval normal.
pub IsInterval-Normalised : {low high : ℕ} → IsInterval low high → Normalised low high 31
IsInterval-Normalised i = normalise 31 i (omega (arith, i.some_width))

-- A normal interval has more than a quarter of all numbers of 32 bits.
pub IsNormal-wide : {low high : ℕ} → IsNormal low high → low + 2 ^ 30 < high
IsNormal-wide {low} {high} n = elim n.wide [
  | inl a ↦ omega (arith, n.high_ge)
  | inr b ↦ omega (arith, n.low_lt)
]
