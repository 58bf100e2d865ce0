-- ===== src/Ar64/Narrow.antt =====
-- `dach_encode_step`: the interval of a symbol inside the interval of the coder.
use dach.Base.{ℕ, suc, ◌+◌, ◌-◌, ◌*◌, ◌/◌, ◌^◌, ◌≤◌, ◌<◌, ◌≡◌, arith, ok, u64}
use native.Mathlib.Nat.{
  le-div_iff_mul-le, div-lt_iff_lt-mul, mul-le-mul_left, mul-le-mul, div-mul-le_self, mod-eq_of_lt,
}
use dach.Model.{PpmApi, Range}
use dach.Ar64.State.{Arc}
use dach.Ar64.Coder.{calc_range, low_scale, high_scale, encode_step}
use dach.Ar64.Interval.{IsInterval}

abbrev pub width : ℕ → ℕ → ℕ
width low high = high - low + 1

-- The bounds that a symbol with the range `from` .. `to` of `n` occurrences gets.
abbrev pub narrow_low : (low high n from : ℕ) → ℕ
narrow_low low high n from = low + width low high * from / n

abbrev pub narrow_high : (low high n to : ℕ) → ℕ
narrow_high low high n to = low + width low high * to / n - 1

-- Parts of a width that is at least twice the number of occurrences.
module _ {r n from to : ℕ} (nonempty : from < to) (inside : to ≤ n) (wide : 2 * n ≤ r) where
  part-le : r * to / n ≤ r
  part-le =
      let all : r * to ≤ r * n = mul-le-mul_left r inside in
      let more : n * suc r ≡ r * n + n = omega arith in
      let lt : r * to / n < suc r =
        (div-lt_iff_lt-mul {k = n} {x = r * to} {y = suc r} (omega arith)).1
          (omega (arith, all, more)) in
      omega (arith, lt)

  parts_apart : r * from / n + 2 ≤ r * to / n
  parts_apart =
      let next : r * suc from ≤ r * to = mul-le-mul_left r nonempty in
      let under : r * from / n * n ≤ r * from = div-mul-le_self (r * from) n in
      (le-div_iff_mul-le (omega arith)).1 (omega arith)

-- The narrowed interval lies in the interval and holds two numbers at least.
pub record IsNarrow (low high low' high' : ℕ) : Type 0 where
  pub above : low ≤ low'
  pub proper : low' < high'
  pub below : high' ≤ high

module _ {low high n from to : ℕ} (i : IsInterval low high) (nonempty : from < to) (inside : to ≤ n)
    (wide : 2 * n ≤ width low high) where
  pub calc-IsNarrow : IsNarrow low high (narrow_low low high n from) (narrow_high low high n to)
  calc-IsNarrow = record {
    above = omega arith;
    proper = omega (arith, parts_apart nonempty inside wide);
    below =
        omega (arith, parts_apart nonempty inside wide, part-le nonempty inside wide, i.some_width);
  }

  pub narrow-IsInterval : IsInterval (narrow_low low high n from) (narrow_high low high n to)
  narrow-IsInterval = record {
    some_width = calc-IsNarrow.proper;
    high_lt = omega (arith, calc-IsNarrow.below, i.high_lt);
  }

  -- A product of the width and a count fits into 64 bits.
  pub product-lt : (c : ℕ) → c ≤ n → width low high * c < 2 ^ 64
  product-lt c h =
      let le : width low high * c ≤ 2 ^ 32 * 2 ^ 31 =
        mul-le-mul {n₂ = 2 ^ 32} {m₂ = 2 ^ 31} (omega (arith, i.some_width, i.high_lt))
          (omega (arith, i.some_width, i.high_lt)) in
      omega (arith, le)

module _ (api : PpmApi) (self : ℕ) {n chr : ℕ} (arc : Arc api.Model)
    (i : IsInterval arc.low arc.high) (scale : arc.scale ≡ n) (range : Range api arc.model n chr)
    (wide : 2 * n ≤ width arc.low arc.high) where
  pub calc_range_lem : calc_range api self arc ≡ ok (width arc.low arc.high)
  unfolding calc_range
  calc_range_lem = ground (arith, i.some_width, i.high_lt)

  abbrev ranged : Arc api.Model
  ranged = record arc { range = width arc.low arc.high }

  low_scale_lem :
      low_scale api self ranged range.symbol ≡ ok (narrow_low arc.low arc.high n range.from)
  unfolding low_scale
  low_scale_lem =
      let whole : u64 (width arc.low arc.high * range.from) ≡ width arc.low arc.high * range.from =
        mod-eq_of_lt (
          product-lt i range.nonempty range.inside wide range.from
            (omega (arith, range.nonempty, range.inside))) in
      let narrow = narrow-IsInterval i range.nonempty range.inside wide in
      rw (range.cumfreq_from, scale, whole)
        (ground (arith, range.symbol_pos, range.symbol_le, narrow.some_width, narrow.high_lt))

  high_scale_lem :
      high_scale api self ranged range.symbol ≡ ok (narrow_high arc.low arc.high n range.to)
  unfolding high_scale
  high_scale_lem =
      let whole : u64 (width arc.low arc.high * range.to) ≡ width arc.low arc.high * range.to =
        mod-eq_of_lt (product-lt i range.nonempty range.inside wide range.to range.inside) in
      let narrow = narrow-IsInterval i range.nonempty range.inside wide in
      rw (range.cumfreq_to, scale, whole)
        (ground (
          arith,
          range.symbol_pos,
          range.symbol_le,
          range.nonempty,
          range.inside,
          parts_apart range.nonempty range.inside wide,
          narrow.some_width,
          narrow.high_lt,
        ))

  -- The coder after the step.
  abbrev narrowed : Arc api.Model
  narrowed = record ranged {
    low = narrow_low arc.low arc.high n range.from;
    high = narrow_high arc.low arc.high n range.to;
  }

  pub encode_step_lem : encode_step api self arc range.symbol ≡ ok narrowed
  unfolding encode_step
  encode_step_lem =
      let narrow = narrow-IsInterval i range.nonempty range.inside wide in
      rw (calc_range_lem, high_scale_lem, low_scale_lem)
        (ground (arith, range.symbol_pos, range.symbol_le, i.some_width, narrow.some_width))
