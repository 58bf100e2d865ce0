-- ===== src/Ar64/Target.antt =====
-- The cumulative frequency that `dach_decode` computes from a code word inside a symbol's interval.
use dach.Base.{ℕ, ◌+◌, ◌-◌, ◌*◌, ◌/◌, ◌^◌, ◌≤◌, ◌<◌, ◌≡◌, arith, u64}
use native.Mathlib.Nat.{le-div_iff_mul-le, div-lt_iff_lt-mul, mul-le-mul_right, mod-eq_of_lt}
use dach.Ar64.Narrow.{width, narrow_low, narrow_high, calc-IsNarrow, product-lt}
use dach.Ar64.Interval.{IsInterval}

-- `cumfreq` in `dach_decode`.
abbrev pub target : (low high n esym : ℕ) → ℕ
target low high n esym =
    u64 (u64 (u64 (u64 (esym + 2 ^ 64 - low) + 1) * n) + 2 ^ 64 - 1) / width low high

-- A code word in the interval of a symbol.
pub record Codes (low high n from to esym : ℕ) : Type 0 where
  pub above : narrow_low low high n from ≤ esym
  pub below : esym ≤ narrow_high low high n to

module _ {low high n from to esym : ℕ} (i : IsInterval low high) (nonempty : from < to)
    (inside : to ≤ n) (wide : 2 * n ≤ width low high) (c : Codes low high n from to esym) where
  scaled : u64 (u64 (u64 (esym + 2 ^ 64 - low) + 1) * n) ≡ (esym - low + 1) * n
  scaled =
      let narrow = calc-IsNarrow i nonempty inside wide in
      let near : u64 (u64 (esym + 2 ^ 64 - low) + 1) ≡ esym - low + 1 =
        omega (arith, c.above, c.below, narrow.below, i.high_lt) in
      let fits : (esym - low + 1) * n ≤ width low high * n =
        mul-le-mul_right n (omega (arith, c.above, c.below, narrow.below, i.high_lt)) in
      let small : width low high * n < 2 ^ 64 = product-lt i nonempty inside wide n (omega arith) in
      rw near (mod-eq_of_lt (omega (arith, fits, small)))

  target_lem : target low high n esym ≡ ((esym - low + 1) * n - 1) / width low high
  target_lem =
      let fits : (esym - low + 1) * n ≤ width low high * n = mul-le-mul_right n (
        omega (arith, c.above, c.below, (calc-IsNarrow i nonempty inside wide).below, i.high_lt)) in
      let small : width low high * n < 2 ^ 64 = product-lt i nonempty inside wide n (omega arith) in
      let pos : 1 * n ≤ (esym - low + 1) * n = mul-le-mul_right n (omega arith) in
      let pred : u64 ((esym - low + 1) * n + 2 ^ 64 - 1) ≡ (esym - low + 1) * n - 1 =
        omega (arith, fits, small, pos) in
      rw (scaled, pred)

  -- The target lies in the range of the symbol.
  pub target_bounds : (from ≤ target low high n esym) × (target low high n esym < to)
  target_bounds =
      let lo : width low high * from < (esym - low + 1) * n =
        (div-lt_iff_lt-mul {k = n} {x = width low high * from} {y = esym - low + 1} (omega arith)).0
          (omega (arith, c.above)) in
      let hi : (esym - low + 1) * n ≤ width low high * to =
        (le-div_iff_mul-le {k = n} {x = esym - low + 1} {y = width low high * to} (omega arith)).0
          (omega (arith, c.above, c.below, (calc-IsNarrow i nonempty inside wide).proper)) in
      rw target_lem (
        (le-div_iff_mul-le (omega arith)).1 (omega (arith, lo)),
        (div-lt_iff_lt-mul (omega arith)).1 (omega (arith, lo, hi)),
      )
