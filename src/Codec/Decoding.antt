-- ===== src/Codec/Decoding.antt =====
-- `decode` of a file, along the trace of the bytes that were encoded.
use dach.Base.{
  ℕ, zero, suc, ◌+◌, ◌^◌, ◌≤◌, ◌<◌, ◌≡◌, refl, ap, sym, ◌∙◌, subst, arith, Bool, true, false,
  lt→ltb, ◌==◌, if◌then◌else◌, All, List, [], ◌∷◌, ◌++◌, length, length-append, Result, ok, u8,
}
use native.Mathlib.Decide.{ℕ_discrete}
use mathlib.Core.List.{append_assoc, append-nil}
use dach.Ppm0.{Ppm0}
use dach.Ppm0.Api.{ppm0_api, ppm0_laws}
use dach.Ar64.State.{Arc}
use dach.Ar64.Input.{In}
use dach.Ar64.Narrow.{width}
use dach.Ar64.Worth.{worth}
use dach.Ar64.Trace.{Trace, end, turn}
use dach.Ar64.DecodeRound.{Aligned}
use dach.Ar64.Decode.{decoding, decode-Decoded, decode-last}
use dach.Ar64.Coder.{decode}
use dach.Codec.{max_buf, decode_loop}

-- `result` is a rest of the buffer, and a file, that hold the characters together.
pub record Output (all : List ℕ) (result : Result (List ℕ × List ℕ)) : Type 0 where
  pub buf : List ℕ
  pub fd_out : List ℕ
  pub returns : result ≡ ok (buf, fd_out)
  pub contents : fd_out ++ buf ≡ all

if-true : {A : Type 0} {b : Bool} {x : A} (y : A) → b ≡ true → (if b then x else y) ≡ x
if-true {x = x} y e = ap (λ b. if b then x else y) e

if-false : {A : Type 0} {b : Bool} {y : A} (x : A) → b ≡ false → (if b then x else y) ≡ y
if-false {y = y} x e = ap (λ b. if b then x else y) e

module _ (self : ℕ) where
  decode_loop-stopped :
      (arc : Arc Ppm0) (fuel : ℕ) (buf fd_out : List ℕ)
      → arc.stop ≡ true
      → decode_loop self (suc fuel) arc buf fd_out ≡ ok (buf, fd_out)
  unfolding decode_loop
  decode_loop-stopped arc fuel buf fd_out over = if-true _ over

  -- A round of the loop. The buffer goes to the file when it is full.
  decode_loop-going :
      (arc : Arc Ppm0) (fuel c : ℕ) {next : Arc Ppm0} (buf fd_out : List ℕ)
      → arc.stop ≡ false
      → c < 256
      → length buf < max_buf
      → decode ppm0_api self arc ≡ ok (c, next)
      → decode_loop self (suc fuel) arc buf fd_out ≡ (
          if length (buf ++ (c ∷ [])) == max_buf
          then decode_loop self fuel next [] (fd_out ++ (buf ++ (c ∷ [])))
          else decode_loop self fuel next (buf ++ (c ∷ [])) fd_out)
  unfolding decode_loop
  decode_loop-going arc fuel c buf fd_out going byte room e =
      let same : u8 c ≡ c = omega arith in
      if-false (ok (buf, fd_out)) going ∙ rw (e, lt→ltb (length buf) max_buf room, same) refl

  decode_loop-suc :
      (arc : Arc Ppm0) (fuel c : ℕ) {next : Arc Ppm0} {all : List ℕ} (buf fd_out : List ℕ)
      → arc.stop ≡ false
      → c < 256
      → length buf < max_buf
      → decode ppm0_api self arc ≡ ok (c, next)
      → ((buf' fd_out' : List ℕ)
          → length buf' < max_buf
          → fd_out' ++ buf' ≡ (fd_out ++ buf) ++ (c ∷ [])
          → Output all (decode_loop self fuel next buf' fd_out'))
      → Output all (decode_loop self (suc fuel) arc buf fd_out)
  decode_loop-suc arc fuel c {next} {all} buf fd_out going byte room e rest =
      let buf' = buf ++ (c ∷ []) in
      let joined = append_assoc fd_out buf (c ∷ []) in
      let longer = length-append {0} buf (c ∷ []) in
      subst (Output all) (sym (decode_loop-going arc fuel c buf fd_out going byte room e))
        (elim (ℕ_discrete (length buf') max_buf) [
          | yes full ↦
              let test : (length buf' == max_buf) ≡ true = ground arith in
              subst (Output all) (sym (if-true _ test))
                (rest [] (fd_out ++ buf') (omega arith) (append-nil (fd_out ++ buf') ∙ sym joined))
          | no h ↦
              let test : (length buf' == max_buf) ≡ false = ground arith in
              subst (Output all) (sym (if-false _ test))
                (rest buf' fd_out (omega (arith, longer)) (sym joined))
        ])

  module _ (arc : Arc Ppm0) (size : arc.io_buffer_size ≡ 32) (going : arc.stop ≡ false)
      (small : arc.blocksize < 2 ^ 32) {output : List ℕ} where
    -- With a round for each character and one more, the loop returns the characters.
    pub decode_loop-Output :
        {m : Ppm0} {n low high : ℕ} {chrs vs : List ℕ} {inner : In}
        → Trace ppm0_api ppm0_laws m n low high chrs vs
        → (fuel esym range total : ℕ) (buf fd_out : List ℕ) → 0 < length chrs
        → length chrs ≤ fuel
        → All (λ c. c < 256) chrs
        → total + length chrs ≡ arc.blocksize
        → length buf < max_buf
        → Aligned output inner esym (length vs) (worth vs)
        → Output ((fd_out ++ buf) ++ chrs) (
            decode_loop self
              (suc fuel)
              (decoding arc m n low high inner esym range total)
              buf
              fd_out)
    decode_loop-Output (end s) fuel esym range total buf fd_out some le bytes count room a =
        absurd (omega arith)
    decode_loop-Output (turn s t rest) zero esym range total buf fd_out some le bytes count room a =
        absurd (omega arith)
    decode_loop-Output {m} {n} {low} {high} {inner = inner} (turn {chr = chr} {chrs = []} s t rest)
          (suc fuel) esym range total buf fd_out some le (byte, bytes) count room a =
        let same : u8 chr ≡ chr = omega arith in
        let over : Arc Ppm0 =
          record (decoding arc m n low high inner esym (width low high) (total + 1)) {
            stop = true;
          } in
        let last =
          decode-last ppm0_api ppm0_laws self arc size esym range total s t rest a (omega arith)
            small in
        decode_loop-suc (decoding arc m n low high inner esym range total) (suc fuel) chr buf fd_out
          going byte room (last ∙ ap (λ c. ok (c, over)) same)
          (λ buf' fd_out' room' e. record {
            buf = buf';
            fd_out = fd_out';
            returns = decode_loop-stopped over fuel buf' fd_out' refl;
            contents = e;
          })
    decode_loop-Output {m} {n} {low} {high} {inner = inner}
          (turn {chr = chr} {chrs = c ∷ cs} s t rest) (suc fuel) esym range total buf fd_out some le
          (byte, bytes) count room a =
        let d =
          decode-Decoded ppm0_api ppm0_laws self arc size esym range total s t rest a (omega arith)
            small in
        decode_loop-suc (decoding arc m n low high inner esym range total) (suc fuel) chr buf fd_out
          going byte room d.returns
          (λ buf' fd_out' room' e.
            let whole : (fd_out' ++ buf') ++ (c ∷ cs) ≡ (fd_out ++ buf) ++ (chr ∷ c ∷ cs) =
              ap (λ l. l ++ (c ∷ cs)) e ∙ append_assoc (fd_out ++ buf) (chr ∷ []) (c ∷ cs) in
            subst
              (λ all. Output all (
                decode_loop self (suc fuel)
                  (decoding arc t.model (n + 1) t.low' t.high' d.inner d.esym (width low high)
                    (total + 1))
                  buf' fd_out'))
              whole
              (decode_loop-Output rest fuel d.esym (width low high) (total + 1) buf' fd_out'
                (omega arith) (omega arith) bytes (omega arith) room' d.aligned))
