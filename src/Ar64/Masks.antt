-- ===== src/Ar64/Masks.antt =====
-- The masks and tests of the two loops as arithmetic.
use Prim.Native.Nat.{bit_and, bit_or}
use dach.Base.{ℕ, ◌+◌, ◌-◌, ◌*◌, ◌/◌, ◌%◌, ◌^◌, ◌≤◌, ◌<◌, ◌≡◌, arith, u64, true, false}
use dach.Base.Bits.{top_bit, second_bit, drop_second_bit, low_word, set_second_bit, set_lowest}
use dach.Model.{PpmApi}
use dach.Ar64.State.{Arc}
use dach.Ar64.Interval.{IsInterval, IsNormal}
use dach.Ar64.Coder.{same_top, straddles}

module _ (api : PpmApi) (self : ℕ) (arc : Arc api.Model) (i : IsInterval arc.low arc.high) where
  low_top : bit_and arc.low 0x80000000 ≡ arc.low / 2 ^ 31 * 2 ^ 31
  low_top = top_bit arc.low (omega (arith, i.some_width, i.high_lt))

  high_top : bit_and arc.high 0x80000000 ≡ arc.high / 2 ^ 31 * 2 ^ 31
  high_top = top_bit arc.high i.high_lt

  pub same_top_lem : arc.low / 2 ^ 31 ≡ arc.high / 2 ^ 31 → same_top api self arc ≡ true
  same_top_lem h = rw (low_top, high_top, h) (ground arith)

  pub same_top-across : arc.low < 2 ^ 31 → 2 ^ 31 ≤ arc.high → same_top api self arc ≡ false
  same_top-across p q = rw (low_top, high_top) (ground (arith, i.high_lt))

  pub straddles_lem :
      2 ^ 30 ≤ arc.low
      → arc.low < 2 ^ 31
      → 2 ^ 31 ≤ arc.high
      → arc.high < 3 * 2 ^ 30
      → straddles api self arc ≡ true
  straddles_lem p q r s = rw (second_bit arc.low, second_bit arc.high) (ground arith)

  pub straddles-IsNormal : IsNormal arc.low arc.high → straddles api self arc ≡ false
  straddles-IsNormal n =
      rw (second_bit arc.low, second_bit arc.high)
        (ground (arith, n.wide, n.low_lt, n.high_ge, i.high_lt))

-- A shifted end of 32 bits.
pub shift_low : (x : ℕ) → x < 2 ^ 32 → bit_and (u64 (x * 2)) 0xFFFFFFFF ≡ 2 * x % 2 ^ 32
shift_low x h = rw (low_word (u64 (x * 2))) (omega arith)

pub shift_high :
    (x : ℕ) → x < 2 ^ 32 → bit_and (bit_or (u64 (x * 2)) 1) 0xFFFFFFFF ≡ (2 * x + 1) % 2 ^ 32
shift_high x h =
    let e : u64 (x * 2) ≡ x * 2 = omega arith in
    rw (e, set_lowest x, low_word (x * 2 + 1)) (omega arith)

-- The ends of a squeezed interval.
pub squeeze_low : (x : ℕ) → 2 ^ 30 ≤ x → x < 2 ^ 31 → bit_and x 0x3FFFFFFF ≡ x - 2 ^ 30
squeeze_low x p q = rw (drop_second_bit x) (omega arith)

pub squeeze_high : (x : ℕ) → 2 ^ 31 ≤ x → x < 3 * 2 ^ 30 → bit_or x 0x40000000 ≡ x + 2 ^ 30
squeeze_high x p q = rw (set_second_bit x) (omega arith)
