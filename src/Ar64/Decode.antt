-- ===== src/Ar64/Decode.antt =====
-- `dach_decode` takes one turn of the trace.
use dach.Base.{
  ℕ, ◌+◌, ◌^◌, ◌<◌, ◌≡◌, refl, arith, List, ◌++◌, length, Result, ok, u8, u64, true, false, leb,
  lt→ltb, le→leb, ◌==◌,
}
use dach.Model.{PpmApi, PpmLaws}
use dach.Ar64.State.{Arc}
use dach.Ar64.Input.{In}
use dach.Ar64.Narrow.{
  width, narrow_low, narrow_high, calc_range_lem, encode_step_lem, narrow-IsInterval,
}
use dach.Ar64.Target.{target, Codes, target_bounds}
use dach.Ar64.Worth.{worth, Shifts-Inside, Trace-Inside}
use dach.Ar64.Trace.{Turn, Stage, Stage-wide, Trace}
use dach.Ar64.DecodeRound.{Aligned, Aligned-bounds, stepped}
use dach.Ar64.DecodeLoop.{decode_loop-Followed}
use dach.Ar64.Coder.{decode}

-- The coder after some characters.
abbrev pub decoding :
    {M : Type 0} → Arc M → (m : M) (n low high : ℕ) → In → (esym range total : ℕ) → Arc M
decoding arc m n low high inner esym range total = record (stepped arc inner esym low high) {
  model = m;
  scale = n;
  range = range;
  total_syms = total;
}

-- `result` is the character and the coder behind it.
pub record Decoded (output : List ℕ) (k w chr : ℕ) {M : Type 0} (m : M) (n low high range total : ℕ)
    (arc : Arc M) (result : Result (ℕ × Arc M)) : Type 0 where
  pub inner : In
  pub esym : ℕ
  pub returns : result ≡ ok (chr, decoding arc m n low high inner esym range total)
  pub aligned : Aligned output inner esym k w

module _ (api : PpmApi) (laws : PpmLaws api) (self : ℕ) (arc : Arc api.Model)
    (size : arc.io_buffer_size ≡ 32) {output ws chrs : List ℕ} {m : api.Model} {n low high chr : ℕ}
    {inner : In} (esym range total : ℕ) (s : Stage api laws m n low high)
    (t : Turn api laws m n low high chr)
    (after : Trace api laws t.model (n + 1) t.low' t.high' chrs ws)
    (a : Aligned output inner esym (length (t.vs ++ ws)) (worth (t.vs ++ ws))) where
  -- The code word is in the interval of the character.
  esym-Codes : Codes low high n t.range.from t.range.to esym
  esym-Codes =
      let (lo, hi) = Aligned-bounds a (Shifts-Inside ws t.shifts (Trace-Inside api laws after)) in
      record { above = lo; below = hi }

  find_sym-target : api.find_sym m (target low high n esym) ≡ ok t.range.symbol
  find_sym-target =
      let (lo, hi) =
        target_bounds s.interval t.range.nonempty t.range.inside (Stage-wide api laws s)
          esym-Codes in
      t.range.found (target low high n esym) lo hi

  -- Before the last character `dach_decode` returns the character and goes on.
  pub decode-Decoded :
      total + 1 < arc.blocksize
      → arc.blocksize < 2 ^ 32
      → Decoded output
          (length ws)
          (worth ws)
          chr
          t.model
          (n + 1)
          t.low'
          t.high'
          (width low high)
          (total + 1)
          arc
          (decode api self (decoding arc m n low high inner esym range total))
  unfolding decode
  decode-Decoded more small =
      let proper = s.interval.some_width in
      let count : u64 (total + 1) ≡ total + 1 = omega arith in
      let inside_block : leb (total + 1) arc.blocksize ≡ true = ground arith in
      let not_last : (total + 1 == arc.blocksize) ≡ false = ground arith in
      let before = decoding arc m n low high inner esym (width low high) (total + 1) in
      let before_loop =
        decoding arc m n (narrow_low low high n t.range.from) (narrow_high low high n t.range.to)
          inner esym (width low high) (total + 1) in
      let l =
        decode_loop-Followed api self before_loop size t.shifts ws 32 esym (omega (arith, t.few))
          (narrow-IsInterval s.interval t.range.nonempty t.range.inside (Stage-wide api laws s))
          (Trace-Inside api laws after) a in
      record {
        inner = l.inner';
        esym = l.esym';
        returns =
            rw
              (
                lt→ltb low high proper,
                calc_range_lem api self (decoding arc m n low high inner esym range total)
                    s.interval refl t.range (Stage-wide api laws s),
                find_sym-target,
                count,
                inside_block,
                not_last,
                le→leb t.range.symbol 256 t.range.symbol_le,
                encode_step_lem api self before s.interval refl t.range (Stage-wide api laws s),
                t.range.cumfreq_to,
                le→leb t.range.to n t.range.inside,
                l.returns,
                t.range.to_chr,
                t.updates,
                lt→ltb t.low' t.high' t.interval.some_width,
              )
              refl;
        aligned = l.aligned;
      }

  -- The last character ends the block.
  pub decode-last :
      total + 1 ≡ arc.blocksize
      → arc.blocksize < 2 ^ 32
      → decode api self (decoding arc m n low high inner esym range total)
        ≡ ok (
          u8 chr,
          record (decoding arc m n low high inner esym (width low high) (total + 1)) {
            stop = true;
          },
        )
  unfolding decode
  decode-last e small =
      let proper = s.interval.some_width in
      let count : u64 (total + 1) ≡ total + 1 = omega arith in
      rw
        (
          lt→ltb low high proper,
          calc_range_lem api self (decoding arc m n low high inner esym range total) s.interval refl
              t.range (Stage-wide api laws s),
          find_sym-target,
          count,
          t.range.to_chr,
        )
        (ground arith)
