-- ===== src/Ar64/EncodeEnding.antt =====
-- The encoder ends, with any model whose operations end, and to any file or block.
use Prim.Native.Nat.{bit_and, bit_or}
use dach.Base.{
  ℕ, zero, suc, ◌+◌, ◌-◌, ◌*◌, ◌/◌, ◌%◌, ◌^◌, ◌≤◌, ◌<◌, ◌≡◌, refl, arith, ◌==◌, ==_iff, ◌||◌, true,
  false, u32, u64, length, List,
}
use native.Mathlib.Decide.{dec_lt}
use dach.Base.Ends.{Ends, Any, ok-Ends, bind-Ends, weaken-Ends, if-Ends, assert-Ends}
use dach.Model.{PpmApi}
use dach.Ar64.State.{Io, Arc}
use dach.Ar64.Output.{Out, out_of}
use dach.Ar64.Emit.{shifted}
use dach.Ar64.Interval.{
  IsInterval, Shifts, done, next, Move, Move-Moved, lower, across, upper, IsInterval-Normalised,
}
use dach.Ar64.Masks.{
  same_top_lem, same_top-across, straddles_lem, straddles-IsNormal, shift_low, shift_high,
  squeeze_low, squeeze_high,
}
use dach.Ar64.Coder.{encode, encode_loop, same_top, straddles, rounds, fill_up, stop_encoder}
use dach.Ar64.BitsEnding.{Writing, IsOut, write_stream-Ends}
use dach.Ar64.DecodeEnding.{EndsApi, IsNarrowed, encode_step-Ends}

-- A coder between two characters.
pub record IsReady (R : Io → Type 0) {M : Type 0} (arc : Arc M) : Type 0 where
  pub size : arc.io_buffer_size ≡ 32
  pub is_out : IsOut R (out_of arc)

module _ (api : PpmApi) (self : ℕ) {R : Io → Type 0} {W : Type 0} (writing : Writing self R W)
    (arc : Arc api.Model) (size : arc.io_buffer_size ≡ 32) where
  -- The loop changes the output and the interval only.
  abbrev pub IsShifted : Arc api.Model → Type 0
  IsShifted arc' =
      (o : Out) × (u : ℕ) × (low : ℕ) × (high : ℕ) × (arc' ≡ shifted arc o u low high) × IsOut R o

  abbrev Rest : (fuel low high : ℕ) → Type 0
  Rest fuel low high =
      (o : Out) (u : ℕ)
      → IsOut R o
      → Ends IsShifted (encode_loop api self fuel (shifted arc o u low high))

  round_out-Ends :
      (low high : ℕ) {low' high' : ℕ} (fuel : ℕ) (o : Out) (u : ℕ)
      → IsOut R o
      → same_top api self (shifted arc o u low high) ≡ true
      → bit_and (u64 (low * 2)) 0xFFFFFFFF ≡ low'
      → bit_and (bit_or (u64 (high * 2)) 1) 0xFFFFFFFF ≡ high'
      → Rest fuel low' high'
      → Ends IsShifted (encode_loop api self (suc fuel) (shifted arc o u low high))
  unfolding encode_loop
  round_out-Ends low high fuel o u i same lo hi rest = rw same (
      bind-Ends _ _ _ _
        (write_stream-Ends self writing arc size low high o u (u32 (high / 2 ^ 31)) i)
        (λ sent (o', e, j, more, went). rw (e, lo, hi) (rest o' 0 j)))

  round_across-Ends :
      (low high : ℕ) {low' high' : ℕ} (fuel : ℕ) (o : Out) (u : ℕ)
      → IsOut R o
      → same_top api self (shifted arc o u low high) ≡ false
      → straddles api self (shifted arc o u low high) ≡ true
      → bit_and (u64 (bit_and low 0x3FFFFFFF * 2)) 0xFFFFFFFF ≡ low'
      → bit_and (bit_or (u64 (bit_or high 0x40000000 * 2)) 1) 0xFFFFFFFF ≡ high'
      → Rest fuel low' high'
      → Ends IsShifted (encode_loop api self (suc fuel) (shifted arc o u low high))
  unfolding encode_loop
  round_across-Ends low high fuel o u i differ strad lo hi rest =
      rw (differ, strad, lo, hi) (rest o (u32 (u + 1)) i)

  Move-Ends :
      {v low high low' high' : ℕ} (fuel : ℕ) (o : Out) (u : ℕ)
      → IsOut R o
      → IsInterval low high
      → Move v low high low' high'
      → Rest fuel low' high'
      → Ends IsShifted (encode_loop api self (suc fuel) (shifted arc o u low high))
  Move-Ends {low = low} {high} fuel o u i n (lower p q) rest =
      round_out-Ends low high fuel o u i
        (same_top_lem api self (shifted arc o u low high) n (omega arith))
        (omega (arith, shift_low low)) (omega (arith, shift_high high)) rest
  Move-Ends {low = low} {high} fuel o u i n (upper p q r) rest =
      round_out-Ends low high fuel o u i
        (same_top_lem api self (shifted arc o u low high) n (omega arith))
        (omega (arith, shift_low low)) (omega (arith, shift_high high)) rest
  Move-Ends {low = low} {high} fuel o u i n (across p q r s) rest =
      round_across-Ends low high fuel o u i
        (same_top-across api self (shifted arc o u low high) n q r)
        (straddles_lem api self (shifted arc o u low high) n p q r s)
        (rw (squeeze_low low p q) (omega (arith, shift_low (low - 2 ^ 30))))
        (rw (squeeze_high high r s) (omega (arith, shift_high (high + 2 ^ 30)))) rest

  Shifts-Ends :
      {low high low' high' : ℕ} {vs : List ℕ}
      → Shifts low high low' high' vs
      → (fuel : ℕ) → length vs ≤ fuel
      → IsInterval low high
      → Rest (suc fuel) low high
  unfolding encode_loop
  Shifts-Ends {low} {high} (done normal) fuel le n o u i =
      rw
        (
          same_top-across api self (shifted arc o u low high) n normal.low_lt normal.high_ge,
          straddles-IsNormal api self (shifted arc o u low high) n normal,
        )
        (ok-Ends _ _ (o, u, low, high, refl, i))
  Shifts-Ends (next m s) zero le n o u i = absurd (omega arith)
  Shifts-Ends (next m s) (suc fuel) le n o u i =
      Move-Ends (suc fuel) o u i n m
        (λ o' u' j. Shifts-Ends s fuel (omega arith) ((Move-Moved m).interval) o' u' j)

  -- One number alone takes one shift more.
  single-Ends : (low : ℕ) → low < 2 ^ 32 → Rest rounds low low
  single-Ends low short o u i =
      let n : IsInterval (2 * low % 2 ^ 32) ((2 * low + 1) % 2 ^ 32) = record {
        some_width = omega arith;
        high_lt = omega arith;
      } in
      let s = IsInterval-Normalised n in
      round_out-Ends low low 32 o u i (ground arith) (shift_low low short) (shift_high low short)
        (λ o' u' j. Shifts-Ends s.shifts 31 s.few n o' u' j)

  pub encode_loop-Ends : (low high : ℕ) → low ≤ high → high < 2 ^ 32 → Rest rounds low high
  encode_loop-Ends low high le short o u i = elim (dec_lt low high) [
    | yes p ↦
        let n : IsInterval low high = record { some_width = p; high_lt = short } in
        let s = IsInterval-Normalised n in Shifts-Ends s.shifts 32 (omega (arith, s.few)) n o u i
    | no p ↦ (let e : high ≡ low = omega arith in rw e (single-Ends low (omega arith) o u i))
  ]

module _ (api : PpmApi) (ends : EndsApi api) (self : ℕ) {R : Io → Type 0} {W : Type 0}
    (writing : Writing self R W) where
  pub encode-Ends :
      (arc : Arc api.Model) (chr : ℕ) → IsReady R arc → Ends (IsReady R) (encode api self arc chr)
  unfolding encode
  encode-Ends arc chr r = bind-Ends Any _ _ _ (ends.chr_to_sym-Ends arc.model chr) (λ s _.
      bind-Ends (IsNarrowed arc) _ _ _ (encode_step-Ends api ends self arc s)
        (λ narrowed (range, low, high, le, short, e).
          let counted : Arc api.Model = record arc {
            range = range;
            total_syms = u64 (arc.total_syms + 1);
          } in
          rw e (
            bind-Ends (IsShifted api self writing counted (r.size)) _ _ _
              (encode_loop-Ends api self writing counted (r.size) low high le short (out_of arc)
                arc.underflow r.is_out)
              (λ looped (o, u, low', high', e', i).
                bind-Ends Any _ _ _ (ends.update-Ends looped.model s) (λ (scale, model) _.
                  ok-Ends _ _ (rw e' (record { size = r.size; is_out = i })))))))

module _ (api : PpmApi) (self : ℕ) {R : Io → Type 0} {W : Type 0} (writing : Writing self R W)
    (arc : Arc api.Model) (size : arc.io_buffer_size ≡ 32) (low high : ℕ) where
  -- The output is full behind the loop, and nothing is owed.
  abbrev IsFull : Arc api.Model → Type 0
  IsFull arc' = (o : Out) × (arc' ≡ shifted arc o 0 low high) × IsOut R o × (o.full ≡ 0)

  fill_up-Ends :
      (fuel : ℕ) (o : Out) (bit : ℕ)
      → o.full < fuel
      → IsOut R o
      → Ends IsFull (fill_up api self fuel (shifted arc o 0 low high) bit)
  unfolding fill_up
  fill_up-Ends zero o bit lt i = absurd (omega arith)
  fill_up-Ends (suc fuel) o bit lt i =
      if-Ends _ (o.full == 0) _ _ (λ e. ok-Ends _ _ (o, refl, i, (==_iff o.full 0).0 e))
        (λ e.
          let some_room : 1 ≤ o.full = ground arith in
          bind-Ends _ _ _ _ (write_stream-Ends self writing arc size low high o 0 bit i)
            (λ sent (o', e', j, more, went).
              let m = more refl in
              let less = m.less some_room in rw e' (fill_up-Ends fuel o' bit (omega arith) j)))

module _ (api : PpmApi) (self : ℕ) {R : Io → Type 0} {W : Type 0} (writing : Writing self R W) where
  -- The output is kept, and a word has gone out when the encoder has stopped.
  pub stop_encoder-Ends :
      (arc : Arc api.Model)
      → IsReady R arc
      → Ends (λ arc'. R arc'.io × W) (stop_encoder api self arc)
  unfolding stop_encoder
  stop_encoder-Ends arc r =
      let tmp = bit_and (u32 arc.low) 0x80000000 in
      let write = write_stream-Ends self writing arc r.size arc.low arc.high in
      assert-Ends _ (arc.total_syms == arc.blocksize) _ (λ _.
        assert-Ends _ ((tmp == 1) || (tmp == 0)) _ (λ _.
          bind-Ends _ _ _ _ (write (out_of arc) (u32 (arc.underflow + 1)) (1 - tmp) r.is_out)
            (λ first (o, e, i, more, went). rw e (
              bind-Ends _ _ _ _ (write o 0 tmp i) (λ second (o', e', i', more', went'). rw e' (
                bind-Ends (IsFull api self writing arc r.size arc.low arc.high) _ _ _
                  (fill_up-Ends api self writing arc r.size arc.low arc.high rounds o' tmp
                    (omega (arith, i'.room)) i')
                  (λ full (o'', e'', i'', none). rw e'' (
                    weaken-Ends _ _ (λ last (o3, e3, i3, more3, went3). rw e3 (i3.kept, went3 none))
                      (write o'' 0 tmp i'')))))))))
