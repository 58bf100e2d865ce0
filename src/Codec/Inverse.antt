-- ===== src/Codec/Inverse.antt =====
-- The tables of symbols and characters behind the bytes of a file.
use dach.Base.{
  ℕ, ◌+◌, ◌≤◌, ◌<◌, ◌^◌, ◌≡◌, refl, ap, arith, ◌==◌, not, ok, All, List, [], length, ◌>>=◌,
}
use native.Mathlib.Decide.{dec_lt}
use dach.Base.Ends.{Ends, ok-Ends, bind-Ends, if-Ends, assert-Ends, weaken-Ends}
use dach.Ppm0.{Ppm0, new, chr_to_sym, sym_to_chr}
use dach.Ppm0.Inv.{IsValid}
use dach.Ppm0.Init.{new-IsValid}
use dach.Ppm0.Find.{sym_to_chr-chr_to_sym}
use dach.Ppm0.Api.{ppm0_api}
use dach.Ar64.Coder.{new_arcoder}
use dach.Ar64.EncodeEnding.{IsReady}
use dach.Codec.{encode_bytes}
use dach.Codec.EncodeEnding.{HasWords}
use dach.Codec.Counting.{encode_bytes-Counts}

-- `chr_to_sym` gives each byte a symbol, which is not the last, and `sym_to_chr` gives each symbol but the last a byte;
-- each undoes the other.
pub record IsInverse (ppm : Ppm0) : Type 0 where
  pub symbol_of :
      (c : ℕ)
      → c ≤ 255
      → (s : ℕ) × (chr_to_sym ppm c ≡ ok s) × (1 ≤ s) × (s ≤ 256) × (sym_to_chr ppm s ≡ ok c)
  pub character_of :
      (s : ℕ)
      → 1 ≤ s
      → s ≤ 256
      → (c : ℕ) × (sym_to_chr ppm s ≡ ok c) × (c ≤ 255) × (chr_to_sym ppm c ≡ ok s)

sym_to_chr-byte :
    {ppm : Ppm0} {n : ℕ} (s : ℕ) → IsValid n ppm → 1 ≤ s → s ≤ 256 → ppm.sym_to_chr s ≤ 255
sym_to_chr-byte {ppm} s v lo hi = elim (dec_lt 255 (ppm.sym_to_chr s)) [
  | yes p ↦
      let e : ppm.sym_to_chr s ≡ ppm.sym_to_chr 257 =
        omega (arith, v.ranking.chr_le s (omega arith), v.ranking.last) in
      absurd (
        omega (
          arith,
          ap ppm.chr_to_sym e,
          v.ranking.sym_of_chr s (omega arith),
          v.ranking.sym_of_chr 257 (omega arith),
        ))
  | no p ↦ omega arith
]

IsValid-IsInverse : {ppm : Ppm0} {n : ℕ} → IsValid n ppm → IsInverse ppm
unfolding chr_to_sym sym_to_chr
IsValid-IsInverse {ppm} v = record {
  symbol_of = λ c h. sym_to_chr-chr_to_sym c v h;
  character_of = λ s lo hi. (
    ppm.sym_to_chr s,
    ground arith,
    sym_to_chr-byte s v lo hi,
    ground (arith, sym_to_chr-byte s v lo hi, v.ranking.sym_of_chr s),
  );
}

module _ (self : ℕ) where
  -- A new coder with its model.
  new_arcoder-model :
      (ppm : Ppm0) (blocksize : ℕ)
      → Ends
          (λ arc. IsReady HasWords arc × (arc.model ≡ ppm))
          (new_arcoder ppm0_api self ppm [] [] blocksize)
  unfolding new_arcoder
  new_arcoder-model ppm blocksize = assert-Ends _ (not (ppm.scale == 0)) _ (λ _.
      if-Ends _ (blocksize == 0) _ _
        (λ _.
          ok-Ends _ _
            (record { size = refl; is_out = record { kept = refl; room = omega arith } }, refl))
        (λ _.
          ok-Ends _ _
            (record { size = refl; is_out = record { kept = refl; room = omega arith } }, refl)))

  -- For fewer than 2 ^ 32 - 257 bytes, the encoding of the bytes with a new model ends, and where it returns, the two
  -- tables of the model are inverse to each other: `chr_to_sym` finds the symbol of every byte, one of the first 256,
  -- and `sym_to_chr` gives the byte back, and from each of these symbols they lead to a byte and back.
  pub encode_bytes-IsInverse :
      (bytes : List ℕ)
      → All (λ c. c < 256) bytes
      → 257 + length bytes < 2 ^ 32
      → Ends
          (λ arc. IsInverse arc.model)
          (new >>= λ model.
            new_arcoder ppm0_api self model [] [] (length bytes) >>= encode_bytes self bytes)
  encode_bytes-IsInverse bytes all few =
      let (ppm, made, valid, ones) = new-IsValid in
      rw made (
        bind-Ends (λ arc. IsReady HasWords arc × (arc.model ≡ ppm)) _ _ _
          (new_arcoder-model ppm (length bytes))
          (λ arc (r, same).
            weaken-Ends _ _ (λ arc' (r', counts). IsValid-IsInverse counts.valid)
              (encode_bytes-Counts self bytes arc r (rw same valid) all few)))
