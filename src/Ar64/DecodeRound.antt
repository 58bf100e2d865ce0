-- ===== src/Ar64/DecodeRound.antt =====
-- A round of the loop of `dach_decode` moves its code word as the encoder's shift moves the interval.
use Prim.Native.Nat.{bit_and, bit_or, bit_xor}
use dach.Base.{
  ℕ, suc, ◌+◌, ◌-◌, ◌*◌, ◌%◌, ◌^◌, ◌≤◌, ◌<◌, ◌≡◌, refl, arith, true, false, lt→ltb, List, ◌∷◌, ◌++◌,
  length, Result, ok, u32, u64,
}
use native.Mathlib.Nat.{mul-le-mul_right}
use native.Mathlib.Decide.{dec_lt}
use dach.Base.Bits.{low_word, append_bit, flip_second_bit}
use dach.Model.{PpmApi}
use dach.Ar64.State.{Arc}
use dach.Ar64.Words.{IsBits, val, val-lt}
use dach.Ar64.Input.{In, in_of, with_in, Fed}
use dach.Ar64.Bitin.{bitin-Took}
use dach.Ar64.Interval.{IsInterval, Move, lower, across, upper}
use dach.Ar64.Masks.{
  same_top_lem, same_top-across, straddles_lem, shift_low, shift_high, squeeze_low, squeeze_high,
}
use dach.Ar64.Worth.{Inside}
use dach.Ar64.Coder.{same_top, straddles, take_bit, decode_loop}

-- The code word `esym` and the next `k` bits are the code `w`.
pub record Aligned (output : List ℕ) (inner : In) (esym k w : ℕ) : Type 0 where
  pub front : List ℕ
  pub back : List ℕ
  pub front_bits : IsBits front
  pub length_front : length front ≡ k
  pub fed : Fed output inner (front ++ back)
  pub code : esym * 2 ^ k + val front ≡ w

-- A code word lies in the interval of its code.
pub Aligned-bounds :
    {output : List ℕ} {inner : In} {esym k w low high : ℕ}
    → Aligned output inner esym k w
    → Inside low high k w
    → (low ≤ esym) × (esym ≤ high)
Aligned-bounds {esym = esym} {k} {w} {low} {high} a i =
    let short : val a.front < 2 ^ k = rw (← a.length_front) (val-lt a.front a.front_bits) in
    (
      elim (dec_lt esym low) [
        | no h ↦ omega arith
        | yes h ↦ absurd (
            omega
              (arith, i.above, a.code, short, mul-le-mul_right {m = suc esym} {n = low} (2 ^ k) h))
      ],
      elim (dec_lt high esym) [
        | no h ↦ omega arith
        | yes h ↦
            absurd
              (omega (arith, i.below, a.code, mul-le-mul_right {m = suc high} {n = esym} (2 ^ k) h))
      ],
    )

-- The coder with another input, code word and interval.
abbrev pub stepped : {M : Type 0} → Arc M → In → (esym low high : ℕ) → Arc M
stepped arc i esym low high = record (with_in arc i) { esym = esym; low = low; high = high }

module _ (api : PpmApi) (self : ℕ) (arc : Arc api.Model) {output rest : List ℕ} {b : ℕ}
    (size : arc.io_buffer_size ≡ 32) (hb : b < 2) (f : Fed output (in_of arc) (b ∷ rest)) where
  take_bit_lem :
      arc.low < arc.high
      → take_bit api self arc
        ≡ ok (record (with_in arc (bitin-Took self arc size f).inner) {
          esym = arc.esym * 2 % 2 ^ 32 + b;
        })
  unfolding take_bit
  take_bit_lem proper =
      let even : bit_and (u32 (arc.esym * 2)) 0xFFFFFFFF ≡ arc.esym % 2 ^ 31 * 2 =
        omega (arith, low_word (u32 (arc.esym * 2))) in
      let joined : arc.esym % 2 ^ 31 * 2 + b ≡ arc.esym * 2 % 2 ^ 32 + b = omega arith in
      rw
        (
          lt→ltb arc.low arc.high proper,
          even,
          (bitin-Took self arc size f).returns,
          append_bit (arc.esym % 2 ^ 31) b hb,
          joined,
        )
        refl

-- A round takes the bit `b`, and moves the code word as the shift moves the interval.
pub record Round (api : PpmApi) (self : ℕ) (arc : Arc api.Model) (output rest : List ℕ)
    (b v esym low' high' fuel : ℕ) (result : Result (Arc api.Model)) : Type 0 where
  pub inner' : In
  pub esym' : ℕ
  pub continues : result ≡ decode_loop api self fuel (stepped arc inner' esym' low' high')
  pub fed : Fed output inner' rest
  pub moved : esym' + v * 2 ^ 31 ≡ 2 * esym + b

module _ (api : PpmApi) (self : ℕ) (arc : Arc api.Model) (size : arc.io_buffer_size ≡ 32)
    {output rest : List ℕ} {b : ℕ} (hb : b < 2) where
  -- A round of the loop, on equal top bits.
  round_out :
      {inner : In} {low high : ℕ} (fuel esym low' high' : ℕ)
      → (f : Fed output inner (b ∷ rest)) → low < high
      → low' < high'
      → same_top api self (stepped arc inner esym low high) ≡ true
      → bit_and (u64 (low * 2)) 0xFFFFFFFF ≡ low'
      → bit_and (bit_or (u64 (high * 2)) 1) 0xFFFFFFFF ≡ high'
      → decode_loop api self (suc fuel) (stepped arc inner esym low high)
        ≡ decode_loop api self fuel (
            stepped arc
              (bitin-Took self (stepped arc inner esym low' high') size f).inner
              (esym * 2 % 2 ^ 32 + b)
              low'
              high')
  unfolding decode_loop
  round_out {inner} {low} {high} fuel esym low' high' f proper proper' same lo hi =
      rw
        (
          lt→ltb low high proper,
          same,
          lo,
          hi,
          take_bit_lem api self (stepped arc inner esym low' high') size hb f proper',
        )
        refl

  -- A round on an interval that straddles the middle.
  round_across :
      {inner : In} {low high : ℕ} (fuel esym esym₁ low' high' : ℕ)
      → (f : Fed output inner (b ∷ rest)) → low < high
      → low' < high'
      → same_top api self (stepped arc inner esym low high) ≡ false
      → straddles api self (stepped arc inner esym low high) ≡ true
      → bit_xor esym 0x40000000 ≡ esym₁
      → bit_and low 0x3FFFFFFF < bit_or high 0x40000000
      → bit_and (u64 (bit_and low 0x3FFFFFFF * 2)) 0xFFFFFFFF ≡ low'
      → bit_and (bit_or (u64 (bit_or high 0x40000000 * 2)) 1) 0xFFFFFFFF ≡ high'
      → decode_loop api self (suc fuel) (stepped arc inner esym low high)
        ≡ decode_loop api self fuel (
            stepped arc
              (bitin-Took self (stepped arc inner esym₁ low' high') size f).inner
              (esym₁ * 2 % 2 ^ 32 + b)
              low'
              high')
  unfolding decode_loop
  round_across {inner} {low} {high} fuel esym esym₁ low' high' f proper proper' differ strad flip
        squeezed lo hi =
      rw
        (
          lt→ltb low high proper,
          differ,
          strad,
          lt→ltb (bit_and low 0x3FFFFFFF) (bit_or high 0x40000000) squeezed,
          flip,
          lo,
          hi,
          take_bit_lem api self (stepped arc inner esym₁ low' high') size hb f proper',
        )
        refl

  pub Move-Round :
      {inner : In} {v low high low' high' : ℕ} (fuel esym : ℕ)
      → Fed output inner (b ∷ rest)
      → IsInterval low high
      → low ≤ esym
      → esym ≤ high
      → Move v low high low' high'
      → Round api self arc output rest b v esym low' high' fuel
          (decode_loop api self (suc fuel) (stepped arc inner esym low high))
  Move-Round {inner} {low = low} {high} fuel esym f i lo hi (lower p q) =
      let t = bitin-Took self (stepped arc inner esym (2 * low) (2 * high + 1)) size f in
      record {
        inner' = t.inner;
        esym' = esym * 2 % 2 ^ 32 + b;
        continues =
            round_out fuel esym (2 * low) (2 * high + 1) f i.some_width
              (omega (arith, i.some_width))
              (same_top_lem api self (stepped arc inner esym low high) i (omega arith))
              (omega (arith, shift_low low)) (omega (arith, shift_high high));
        fed = t.fed;
        moved = omega arith;
      }
  Move-Round {inner} {low = low} {high} fuel esym f i lo hi (upper p q r) =
      let t =
        bitin-Took self (stepped arc inner esym (2 * low - 2 ^ 32) (2 * high + 1 - 2 ^ 32)) size
          f in
      record {
        inner' = t.inner;
        esym' = esym * 2 % 2 ^ 32 + b;
        continues =
            round_out fuel esym (2 * low - 2 ^ 32) (2 * high + 1 - 2 ^ 32) f i.some_width
              (omega (arith, i.some_width))
              (same_top_lem api self (stepped arc inner esym low high) i (omega arith))
              (omega (arith, shift_low low)) (omega (arith, shift_high high));
        fed = t.fed;
        moved = omega arith;
      }
  Move-Round {inner} {low = low} {high} fuel esym f i lo hi (across p q r s) =
      let esym₁ = bit_xor esym 0x40000000 in
      let t =
        bitin-Took self (stepped arc inner esym₁ (2 * low - 2 ^ 31) (2 * high + 1 - 2 ^ 31)) size
          f in
      record {
        inner' = t.inner;
        esym' = esym₁ * 2 % 2 ^ 32 + b;
        continues =
            round_across fuel esym esym₁ (2 * low - 2 ^ 31) (2 * high + 1 - 2 ^ 31) f i.some_width
              (omega arith) (same_top-across api self (stepped arc inner esym low high) i q r)
              (straddles_lem api self (stepped arc inner esym low high) i p q r s) refl
              (omega (arith, squeeze_low low p q, squeeze_high high r s))
              (rw (squeeze_low low p q) (omega (arith, shift_low (low - 2 ^ 30))))
              (rw (squeeze_high high r s) (omega (arith, shift_high (high + 2 ^ 30))));
        fed = t.fed;
        moved = omega (arith, flip_second_bit esym);
      }
