-- ===== src/Codec.antt =====
-- src/dach/dach.c: `encode` and `decode` of a whole file, from the contents of the input file to
-- those of the output file.
pub mod Runs
pub mod Encoding
pub mod Decoding
pub mod RoundTrip
pub mod Ending
pub mod EncodeEnding
pub mod Counting
pub mod Inverse
pub mod Worker
pub mod Driver
pub mod Names
pub mod ReadOnly
use dach.Base.{
  ℕ, zero, suc, ◌+◌, Bool, true, false, Result, ok, err, no_fuel, overrun, check, ◌>>=◌, ◌>>◌, ltb,
  ◌==◌, if◌then◌else◌, List, [], ◌∷◌, ◌++◌, length, u8,
}
use dach.Ppm0.{Ppm0, new}
use dach.Ppm0.Api.{ppm0_api}
use dach.Ar64.State.{Io, files, blocks, Arc}
use dach.Ar64.Coder.{new_arcoder, encode, stop_encoder, start_decoder, decode}

-- `max_buf`
abbrev pub max_buf : ℕ
max_buf = 4096

abbrev pub Coder : Type 0
Coder = Arc Ppm0

-- What the coder has written to its file.
abbrev pub written : Io → List ℕ
written (files input output) = output
written (blocks b) = []

module _ (self : ℕ) where
  -- The loop over the mapped file.
  unfoldable pub encode_bytes : List ℕ → Coder → Result Coder
  encode_bytes [] arc = ok arc
  encode_bytes (c ∷ cs) arc = do arc ← encode ppm0_api self arc c; encode_bytes cs arc

  -- `encode` behind the mapping of its file, which `encode_named` has; nothing is written for no bytes.
  unfoldable pub encode_file : List ℕ → Result (List ℕ)
  encode_file bytes =
      if ltb 0 (length bytes)
      then (do
        model ← new
        arc ← new_arcoder ppm0_api self model [] [] (length bytes)
        arc ← encode_bytes bytes arc
        arc ← stop_encoder ppm0_api self arc
        ok (written arc.io))
      else ok []

  -- The loop of `decode`, with the filled part of `buf`, which has room for `max_buf`
  -- bytes, and what `fd_out` was given.
  unfoldable pub decode_loop : ℕ → Coder → List ℕ → List ℕ → Result (List ℕ × List ℕ)
  decode_loop zero arc buf fd_out = err no_fuel
  decode_loop (suc fuel) arc buf fd_out = if arc.stop then ok (buf, fd_out) else (do
    (c, arc) ← decode ppm0_api self arc
    check (ltb (length buf) max_buf) overrun
    let buf = buf ++ (u8 c ∷ [])
    if length buf == max_buf
        then decode_loop fuel arc [] (fd_out ++ buf)
        else decode_loop fuel arc buf fd_out)

  -- `decode`. Each round decodes one of `blocksize` characters.
  unfoldable pub decode_file : List ℕ → Result (List ℕ)
  decode_file bytes = do
    model ← new
    arc ← new_arcoder ppm0_api self model bytes [] 0
    arc ← start_decoder ppm0_api self arc
    (buf, fd_out) ← decode_loop (arc.blocksize + 1) arc [] []
    ok (fd_out ++ buf)
