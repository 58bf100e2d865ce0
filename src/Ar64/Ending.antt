-- ===== src/Ar64/Ending.antt =====
-- The loop of `dach_decode` ends on any input, within its rounds.
use Prim.Native.Nat.{bit_and, bit_or, bit_xor}
use dach.Base.{
  ℕ, zero, suc, ◌+◌, ◌-◌, ◌*◌, ◌/◌, ◌^◌, ◌≤◌, ◌<◌, ◌≡◌, refl, ap, arith, ltb, ltb→lt, lt→ltb, ◌==◌,
  ◌||◌, not, true, false, Bool-cases, inl, inr, u32, u64, length, List,
}
use dach.Base.Ends.{Ends, Any, ok-Ends, bind-Ends, if-Ends, assert-Ends, ending}
use dach.Block.Ending.{block_read-Ends}
use dach.Model.{PpmApi}
use dach.Ar64.State.{Io, files, blocks, Arc, read_word}
use dach.Ar64.Stream.{fill_word, bitin}
use dach.Ar64.Input.{In, in_of, with_in}
use dach.Ar64.Interval.{
  IsInterval, Shifts, done, next, Move, Move-Moved, lower, across, upper, IsInterval-Normalised,
}
use dach.Ar64.Masks.{
  same_top_lem, same_top-across, straddles_lem, straddles-IsNormal, shift_low, shift_high,
  squeeze_low, squeeze_high,
}
use dach.Ar64.DecodeRound.{stepped}
use dach.Ar64.Coder.{same_top, straddles, take_bit, decode_loop, rounds}

read_word-Ends : (self : ℕ) (io : Io) → Ends Any (read_word self io)
unfolding read_word
read_word-Ends self (files input output) = search ending
read_word-Ends self (blocks b) = search (ending, block_read-Ends)

-- Input changes the fields of the input only.
abbrev pub IsFed : {M : Type 0} → Arc M → Arc M → Type 0
IsFed arc arc' = (i : In) × (arc' ≡ with_in arc i)

module _ (self : ℕ) {M : Type 0} (arc : Arc M) where
  fill_word-Ends : Ends (IsFed arc) (fill_word self arc)
  unfolding fill_word
  fill_word-Ends =
      if-Ends _ (arc.io_buffer_full == 0) _ _
        (λ _. assert-Ends _ (not arc.eof_in) _ (λ _.
          bind-Ends Any _ _ _ (read_word-Ends self arc.io) (λ (word, ended, io) _. ok-Ends _ _ (
            record {
              io = io;
              eof_in = arc.eof_in || ended;
              buffer = word;
              full = arc.io_buffer_size;
              count = arc.total_bits_in;
            },
            refl,
          ))))
        (λ _. ok-Ends _ _ (in_of arc, refl))

  abbrev taken : Arc M → Arc M
  taken f = record f {
    total_bits_in = u64 (f.total_bits_in + 1);
    io_buffer = u32 (f.io_buffer * 2);
    io_buffer_full = f.io_buffer_full - 1;
  }

  pub bitin-Ends : Ends (λ r. IsFed arc r.1) (bitin self arc)
  unfolding bitin
  bitin-Ends = bind-Ends (IsFed arc) _ _ _ fill_word-Ends (λ fed (i, e).
      let t = bit_and fed.io_buffer 0x80000000 / 2 ^ 31 in
      assert-Ends _ ((t == 0) || (t == 1)) _ (λ _.
        ok-Ends _ (t, taken fed)
          (
            record {
              io = i.io;
              eof_in = i.eof_in;
              buffer = u32 (i.buffer * 2);
              full = i.full - 1;
              count = u64 (i.count + 1);
            },
            ap (λ f. taken f) e,
          )))

-- The decoder's loop changes the input, the code word and the interval only.
abbrev pub IsStepped : {M : Type 0} → Arc M → (low high : ℕ) → Arc M → Type 0
IsStepped arc low high arc' = (i : In) × (esym : ℕ) × (arc' ≡ stepped arc i esym low high)

module _ (api : PpmApi) (self : ℕ) (arc : Arc api.Model) where
  take_bit-Ends :
      (i : In) (esym low high : ℕ)
      → Ends (IsStepped arc low high) (take_bit api self (stepped arc i esym low high))
  unfolding take_bit
  take_bit-Ends i esym low high = assert-Ends _ (ltb low high) _ (λ _.
      bind-Ends (λ r. IsFed (stepped arc i esym low high) r.1) _ _ _
        (bitin-Ends self (stepped arc i esym low high))
        (λ (b, fed) (j, e). ok-Ends _ _ (
          j,
          bit_or (bit_and (u32 (esym * 2)) 0xFFFFFFFF) b,
          ap
              (λ (f : Arc api.Model). record f {
                esym = bit_or (bit_and (u32 (esym * 2)) 0xFFFFFFFF) b;
              })
              e,
        )))

  -- A round that shifts.
  round_out-Ends :
      {P : Arc api.Model → Type 0} {low high low' high' : ℕ} (fuel esym : ℕ) (i : In)
      → low < high
      → same_top api self (stepped arc i esym low high) ≡ true
      → bit_and (u64 (low * 2)) 0xFFFFFFFF ≡ low'
      → bit_and (bit_or (u64 (high * 2)) 1) 0xFFFFFFFF ≡ high'
      → ((j : In) (esym' : ℕ) → Ends P (decode_loop api self fuel (stepped arc j esym' low' high')))
      → Ends P (decode_loop api self (suc fuel) (stepped arc i esym low high))
  unfolding decode_loop
  round_out-Ends {P} {low} {high} {low'} {high'} fuel esym i proper same lo hi rest =
      rw (lt→ltb low high proper, same, lo, hi)
        (bind-Ends (IsStepped arc low' high') P _ _ (take_bit-Ends i esym low' high')
          (λ arc' (j, esym', e). rw e (rest j esym')))

  round_across-Ends :
      {P : Arc api.Model → Type 0} {low high low' high' : ℕ} (fuel esym : ℕ) (i : In)
      → low < high
      → bit_and low 0x3FFFFFFF < bit_or high 0x40000000
      → same_top api self (stepped arc i esym low high) ≡ false
      → straddles api self (stepped arc i esym low high) ≡ true
      → bit_and (u64 (bit_and low 0x3FFFFFFF * 2)) 0xFFFFFFFF ≡ low'
      → bit_and (bit_or (u64 (bit_or high 0x40000000 * 2)) 1) 0xFFFFFFFF ≡ high'
      → ((j : In) (esym' : ℕ) → Ends P (decode_loop api self fuel (stepped arc j esym' low' high')))
      → Ends P (decode_loop api self (suc fuel) (stepped arc i esym low high))
  unfolding decode_loop
  round_across-Ends {P} {low} {high} {low'} {high'} fuel esym i proper squeezed differ strad lo hi
        rest =
      rw
        (
          lt→ltb low high proper,
          differ,
          strad,
          lt→ltb (bit_and low 0x3FFFFFFF) (bit_or high 0x40000000) squeezed,
          lo,
          hi,
        )
        (bind-Ends (IsStepped arc low' high') P _ _
          (take_bit-Ends i (bit_xor esym 0x40000000) low' high')
          (λ arc' (j, esym', e). rw e (rest j esym')))

  Move-Ends :
      {P : Arc api.Model → Type 0} {v low high low' high' : ℕ} (fuel esym : ℕ) (i : In)
      → IsInterval low high
      → Move v low high low' high'
      → ((j : In) (esym' : ℕ) → Ends P (decode_loop api self fuel (stepped arc j esym' low' high')))
      → Ends P (decode_loop api self (suc fuel) (stepped arc i esym low high))
  Move-Ends {low = low} {high} fuel esym i n (lower p q) rest =
      round_out-Ends fuel esym i n.some_width
        (same_top_lem api self (stepped arc i esym low high) n (omega arith))
        (omega (arith, shift_low low)) (omega (arith, shift_high high)) rest
  Move-Ends {low = low} {high} fuel esym i n (upper p q r) rest =
      round_out-Ends fuel esym i n.some_width
        (same_top_lem api self (stepped arc i esym low high) n (omega arith))
        (omega (arith, shift_low low)) (omega (arith, shift_high high)) rest
  Move-Ends {low = low} {high} fuel esym i n (across p q r s) rest =
      round_across-Ends fuel esym i n.some_width
        (omega (arith, squeeze_low low p q, squeeze_high high r s))
        (same_top-across api self (stepped arc i esym low high) n q r)
        (straddles_lem api self (stepped arc i esym low high) n p q r s)
        (rw (squeeze_low low p q) (omega (arith, shift_low (low - 2 ^ 30))))
        (rw (squeeze_high high r s) (omega (arith, shift_high (high + 2 ^ 30)))) rest

  -- What the loop leaves: the input, the code word, and an interval of 32-bit numbers.
  abbrev pub IsLeft : Arc api.Model → Type 0
  IsLeft arc' = (low : ℕ) × (high : ℕ) × (high < 2 ^ 32) × IsStepped arc low high arc'

  Shifts-Ends :
      {low high low' high' : ℕ} {vs : List ℕ}
      → Shifts low high low' high' vs
      → (fuel esym : ℕ) (i : In) → length vs ≤ fuel
      → IsInterval low high
      → Ends IsLeft (decode_loop api self (suc fuel) (stepped arc i esym low high))
  unfolding decode_loop
  Shifts-Ends {low} {high} (done normal) fuel esym i le n =
      rw
        (
          lt→ltb low high n.some_width,
          same_top-across api self (stepped arc i esym low high) n normal.low_lt normal.high_ge,
          straddles-IsNormal api self (stepped arc i esym low high) n normal,
        )
        (ok-Ends _ _ (low, high, n.high_lt, (i, esym, refl)))
  Shifts-Ends (next m s) zero esym i le n = absurd (omega arith)
  Shifts-Ends (next m s) (suc fuel) esym i le n =
      Move-Ends (suc fuel) esym i n m
        (λ j esym'. Shifts-Ends s fuel esym' j (omega arith) ((Move-Moved m).interval))

  empty_loop :
      (fuel : ℕ) → ltb arc.low arc.high ≡ false → Ends IsLeft (decode_loop api self (suc fuel) arc)
  unfolding decode_loop
  empty_loop fuel e = assert-Ends _ (ltb arc.low arc.high) _ (λ t. absurd (ground arith))

  -- On an interval of 32-bit numbers the loop ends within its rounds: an empty one fails the assertion.
  pub decode_loop-Ends : arc.high < 2 ^ 32 → Ends IsLeft (decode_loop api self rounds arc)
  decode_loop-Ends h = elim (Bool-cases (ltb arc.low arc.high)) [
    | inl e ↦
        let n : IsInterval arc.low arc.high = record { some_width = ltb→lt _ _ e; high_lt = h } in
        let s = IsInterval-Normalised n in
        Shifts-Ends s.shifts 32 arc.esym (in_of arc) (omega (arith, s.few)) n
    | inr e ↦ empty_loop 32 e
  ]
