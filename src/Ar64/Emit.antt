-- ===== src/Ar64/Emit.antt =====
-- The loop of the encoder puts out a bit, or owes one, for each shift of the interval.
use Prim.Native.Nat.{bit_and, bit_or}
use dach.Base.{
  ℕ, zero, suc, ◌+◌, ◌-◌, ◌*◌, ◌/◌, ◌^◌, ◌≤◌, ◌<◌, ◌≡◌, refl, ap, arith, List, ◌∷◌, ◌++◌, length,
  length-append, length-replicate, replicate, Result, ok, u32, u64, true, false,
}
use native.Mathlib.Nat.{pow-suc}
use dach.Model.{PpmApi}
use dach.Ar64.State.{Arc}
use dach.Ar64.Stream.{write_stream}
use dach.Ar64.Words.{
  IsBits, val, val-append, IsBits-append, IsBits-replicate, val-replicate_zero, val-replicate_one,
}
use dach.Ar64.Output.{Out, out_of, with_out, Written, write_stream-Streamed}
use dach.Ar64.Interval.{IsInterval, Move, lower, across, upper}
use dach.Ar64.Coder.{same_top, straddles, encode_loop}
use dach.Ar64.Masks.{
  same_top_lem, same_top-across, straddles_lem, shift_low, shift_high, squeeze_low, squeeze_high,
}

-- The coder has shifted `N` times, by the halves that `P` adds up; what it put out and what it
-- owes is the same.
pub record Emitted (input before : List ℕ) (P N : ℕ) {M : Type 0} (arc : Arc M) : Type 0 where
  pub bits : List ℕ
  pub is_bits : IsBits bits
  pub written : Written input before (out_of arc) bits
  pub size : arc.io_buffer_size ≡ 32
  pub value : P + 1 ≡ (2 * val bits + 1) * 2 ^ arc.underflow
  pub count : N ≡ length bits + arc.underflow

-- The value of a bit and `n` times its opposite behind other bits.
sent_value :
    (bits : List ℕ) (b n P : ℕ)
    → b < 2
    → P + 1 ≡ (2 * val bits + 1) * 2 ^ n
    → 2 * P + 2 * b + 1 ≡ (2 * val (bits ++ (b ∷ replicate n (1 - b))) + 1) * 2 ^ 0
unfolding val
sent_value bits zero n P h e = omega (
  arith,
  val-append bits (0 ∷ replicate n 1),
  val-replicate_one n,
  length-replicate {A = ℕ} n 1,
  ap (λ (t : ℕ). val bits * 2 ^ suc t) (length-replicate {A = ℕ} n 1),
  ap (λ (t : ℕ). val bits * t) (pow-suc 2 n),
)
sent_value bits (suc zero) n P h e = omega (
  arith,
  val-append bits (1 ∷ replicate n 0),
  val-replicate_zero n,
  length-replicate {A = ℕ} n 0,
  ap (λ (t : ℕ). val bits * 2 ^ suc t) (length-replicate {A = ℕ} n 0),
  ap (λ (t : ℕ). val bits * t) (pow-suc 2 n),
  ap (λ (t : ℕ). 2 ^ t) (length-replicate {A = ℕ} n 0),
)
sent_value bits (suc (suc b)) n P h e = absurd (omega arith)

-- The next state of the loop.
abbrev pub shifted : {M : Type 0} → Arc M → Out → (underflow low high : ℕ) → Arc M
shifted arc out underflow low high = record (with_out arc out) {
  underflow = underflow;
  low = low;
  high = high;
}

-- `dach_write_stream` puts a bit out, with those owed.
record Wrote (input before : List ℕ) (P N : ℕ) {M : Type 0} (arc : Arc M) (result : Result (Arc M))
    : Type 0 where
  out : Out
  returns : result ≡ ok (record (with_out arc out) { underflow = 0 })
  emitted : Emitted input before P N (record (with_out arc out) { underflow = 0 })

write_stream-Wrote :
    (self b : ℕ) {M : Type 0} (arc : Arc M) {input before : List ℕ} {P N : ℕ}
    → b < 2
    → Emitted input before P N arc
    → Wrote input before (2 * P + 2 * b) (N + 1) arc (write_stream self arc b)
write_stream-Wrote self b arc {P = P} hb e =
    let s = write_stream-Streamed self b arc hb e.written e.size in
    record {
      out = s.out;
      returns = s.returns;
      emitted = record {
        bits = e.bits ++ (b ∷ replicate arc.underflow (1 - b));
        is_bits =
            IsBits-append e.bits (b ∷ replicate arc.underflow (1 - b)) e.is_bits
              (hb, IsBits-replicate arc.underflow (1 - b) (omega arith));
        written = s.written;
        size = e.size;
        value = sent_value e.bits b arc.underflow P hb e.value;
        count = omega (
          arith,
          e.count,
          length-append e.bits (b ∷ replicate arc.underflow (1 - b)),
          length-replicate {A = ℕ} arc.underflow (1 - b),
        );
      };
    }

-- A round of the loop for a shift.
pub record Stepped (input before : List ℕ) (P N low' high' : ℕ) (api : PpmApi) (self fuel : ℕ)
    (arc : Arc api.Model) : Type 0 where
  pub out : Out
  pub owed : ℕ
  pub continues :
      encode_loop api self (suc fuel) arc
      ≡ encode_loop api self fuel (shifted arc out owed low' high')
  pub emitted : Emitted input before P N (shifted arc out owed low' high')

module _ (api : PpmApi) (self fuel : ℕ) (arc : Arc api.Model) {input before : List ℕ} {P N : ℕ}
    (e : Emitted input before P N arc) where
  -- A round on equal top bits.
  step_out :
      (b low' high' : ℕ)
      → b < 2
      → same_top api self arc ≡ true
      → u32 (arc.high / 2 ^ 31) ≡ b
      → bit_and (u64 (arc.low * 2)) 0xFFFFFFFF ≡ low'
      → bit_and (bit_or (u64 (arc.high * 2)) 1) 0xFFFFFFFF ≡ high'
      → Stepped input before (2 * P + 2 * b) (N + 1) low' high' api self fuel arc
  unfolding encode_loop
  step_out b low' high' hb same top lo hi =
      let w = write_stream-Wrote self b arc hb e in
      record {
        out = w.out;
        owed = 0;
        continues = rw (same, top, w.returns, lo, hi) refl;
        emitted = record {
          bits = w.emitted.bits;
          is_bits = w.emitted.is_bits;
          written = w.emitted.written;
          size = w.emitted.size;
          value = w.emitted.value;
          count = w.emitted.count;
        };
      }

  -- A round on an interval that straddles the middle.
  step_owe :
      (low' high' : ℕ)
      → N + 1 < 2 ^ 32
      → same_top api self arc ≡ false
      → straddles api self arc ≡ true
      → bit_and (u64 (bit_and arc.low 0x3FFFFFFF * 2)) 0xFFFFFFFF ≡ low'
      → bit_and (bit_or (u64 (bit_or arc.high 0x40000000 * 2)) 1) 0xFFFFFFFF ≡ high'
      → Stepped input before (2 * P + 1) (N + 1) low' high' api self fuel arc
  unfolding encode_loop
  step_owe low' high' small differ strad lo hi =
      let owed : u32 (arc.underflow + 1) ≡ suc arc.underflow = omega (arith, e.count) in
      record {
        out = out_of arc;
        owed = suc arc.underflow;
        continues = rw (differ, strad, owed, lo, hi) refl;
        emitted = record {
          bits = e.bits;
          is_bits = e.is_bits;
          written = e.written;
          size = e.size;
          value =
              omega (
                arith,
                e.value,
                ap (λ (t : ℕ). (2 * val e.bits + 1) * t) (pow-suc 2 arc.underflow),
              );
          count = omega (arith, e.count);
        };
      }

-- The tests and the shift on the two ends, for each kind of shift.
module _ (api : PpmApi) (self fuel : ℕ) (arc : Arc api.Model) {input before : List ℕ} {P N : ℕ}
    (e : Emitted input before P N arc) (i : IsInterval arc.low arc.high)
    (small : N + 1 < 2 ^ 32) where
  step_lower :
      arc.high < 2 ^ 31
      → Stepped input before (2 * P + 0) (N + 1) (2 * arc.low) (2 * arc.high + 1) api self fuel arc
  step_lower h =
      step_out api self fuel arc e 0 (2 * arc.low) (2 * arc.high + 1) (omega arith)
        (same_top_lem api self arc i (omega (arith, i.some_width))) (omega arith)
        (omega (arith, shift_low arc.low, i.some_width)) (omega (arith, shift_high arc.high))

  step_upper :
      2 ^ 31 ≤ arc.low
      → Stepped input before
          (2 * P + 2)
          (N + 1)
          (2 * arc.low - 2 ^ 32)
          (2 * arc.high + 1 - 2 ^ 32)
          api
          self
          fuel
          arc
  step_upper h =
      step_out api self fuel arc e 1 (2 * arc.low - 2 ^ 32) (2 * arc.high + 1 - 2 ^ 32)
        (omega arith) (same_top_lem api self arc i (omega (arith, i.some_width, i.high_lt)))
        (omega (arith, i.some_width, i.high_lt))
        (omega (arith, shift_low arc.low, i.some_width, i.high_lt))
        (omega (arith, shift_high arc.high, i.some_width, i.high_lt))

  step_across :
      2 ^ 30 ≤ arc.low
      → arc.low < 2 ^ 31
      → 2 ^ 31 ≤ arc.high
      → arc.high < 3 * 2 ^ 30
      → Stepped input before
          (2 * P + 1)
          (N + 1)
          (2 * arc.low - 2 ^ 31)
          (2 * arc.high + 1 - 2 ^ 31)
          api
          self
          fuel
          arc
  step_across p q r s =
      step_owe api self fuel arc e (2 * arc.low - 2 ^ 31) (2 * arc.high + 1 - 2 ^ 31) small
        (same_top-across api self arc i q r) (straddles_lem api self arc i p q r s)
        (rw (squeeze_low arc.low p q) (omega (arith, shift_low (arc.low - 2 ^ 30))))
        (rw (squeeze_high arc.high r s) (omega (arith, shift_high (arc.high + 2 ^ 30))))

  pub step-Stepped :
      {v low' high' : ℕ}
      → Move v arc.low arc.high low' high'
      → Stepped input before (2 * P + v) (N + 1) low' high' api self fuel arc
  step-Stepped (lower a b) = step_lower b
  step-Stepped (across a b c d) = step_across a b c d
  step-Stepped (upper a b c) = step_upper a
