-- ===== src/Codec/Counting.antt =====
-- The model behind the bytes of a file counts them.
use dach.Base.{
  ℕ, suc, ◌+◌, ◌≤◌, ◌<◌, ◌^◌, ◌≡◌, ap, ◌∙◌, subst, arith, ◌==◌, if◌then◌else◌, ok, All, List, [],
  ◌∷◌, length, u64, Array,
}
use dach.Base.Ends.{Ends, ok-Ends, bind-Ends, weaken-Ends}
use dach.Ppm0.{Ppm0, sym_to_chr}
use dach.Ppm0.Inv.{IsValid}
use dach.Ppm0.Find.{sym_to_chr-chr_to_sym}
use dach.Ppm0.Update.{update-Updated}
use dach.Ppm0.Api.{ppm0_api}
use dach.Ar64.Output.{out_of}
use dach.Ar64.Coder.{encode}
use dach.Ar64.DecodeEnding.{IsNarrowed, encode_step-Ends}
use dach.Ar64.EncodeEnding.{IsReady, IsShifted, encode_loop-Ends}
use dach.Codec.{Coder, encode_bytes}
use dach.Codec.Ending.{ppm0_EndsApi}
use dach.Codec.EncodeEnding.{HasWords, write_word-Writing}

-- How often a byte occurs.
abbrev pub count : ℕ → List ℕ → ℕ
count c [] = 0
count c (b ∷ bs) = (if c == b then 1 else 0) + count c bs

-- A model that counts as `m` does, and the given bytes.
pub record Counts (m : Ppm0) (n : ℕ) (bytes : List ℕ) (m' : Ppm0) : Type 0 where
  pub valid : IsValid (n + length bytes) m'
  pub freq_lem : (c : ℕ) → m'.freq c ≡ m.freq c + count c bytes

-- The symbol of a byte and the character of the symbol.
chr_of : (m : Ppm0) (s c : ℕ) → sym_to_chr m s ≡ ok c → m.sym_to_chr s ≡ c
unfolding sym_to_chr
chr_of m s c e = ground arith

update-Counts :
    {n : ℕ} (m : Ppm0) (s c : ℕ)
    → (v : IsValid n m) → (small : n + 1 < 2 ^ 32) → (lo : 1 ≤ s) → (hi : s ≤ 256)
    → m.sym_to_chr s ≡ c
    → Counts m n (c ∷ []) ((update-Updated s v small lo hi).out)
update-Counts m s c v small lo hi e =
    let u = update-Updated s v small lo hi in
    record {
      valid = u.valid;
      freq_lem = λ d. ap (λ (f : Array). f d) u.new_freq ∙ rw e (ground arith);
    }

module _ (self : ℕ) where
  -- `dach_encode` of a byte counts it in the model.
  encode-Counts :
      {n : ℕ} (arc : Coder) (c : ℕ)
      → IsReady HasWords arc
      → IsValid n arc.model
      → c < 256
      → n + 1 < 2 ^ 32
      → Ends
          (λ arc'. IsReady HasWords arc' × Counts arc.model n (c ∷ []) arc'.model)
          (encode ppm0_api self arc c)
  unfolding encode
  encode-Counts arc c r v byte small =
      let (s, of_chr, lo, hi, to_chr) = sym_to_chr-chr_to_sym c v (omega arith) in
      let u = update-Updated s v small lo hi in
      let counts = update-Counts arc.model s c v small lo hi (chr_of arc.model s c to_chr) in
      rw of_chr (
        bind-Ends (IsNarrowed arc) _ _ _ (encode_step-Ends ppm0_api ppm0_EndsApi self arc s)
          (λ narrowed (range, low, high, le, short, e).
            let counted : Coder = record arc {
              range = range;
              total_syms = u64 (arc.total_syms + 1);
            } in
            rw e (
              bind-Ends (IsShifted ppm0_api self (write_word-Writing self) counted (r.size)) _ _ _
                (encode_loop-Ends ppm0_api self (write_word-Writing self) counted (r.size) low high
                  le short (out_of arc) arc.underflow r.is_out)
                (λ looped (o, owed, low', high', e', i).
                  rw (e', u.returns)
                    (ok-Ends _ _ (record { size = r.size; is_out = i }, counts))))))

  Counts-cons :
      {m m' m'' : Ppm0} {n c : ℕ} {cs : List ℕ}
      → Counts m n (c ∷ []) m'
      → Counts m' (n + 1) cs m''
      → Counts m n (c ∷ cs) m''
  Counts-cons {m'' = m''} {n} {c} {cs} a b =
      let sum : n + 1 + length cs ≡ n + suc (length cs) = omega arith in
      record {
        valid = subst (λ k. IsValid k m'') sum b.valid;
        freq_lem = λ d. (let first = a.freq_lem d in let rest = b.freq_lem d in omega arith);
      }

  -- For a coder with a valid model of `n` occurrences, and bytes with which it counts fewer than 2 ^ 32, the encoding of
  -- the bytes ends, and where it returns, its model is a valid one of `n` occurrences and one for each byte: the
  -- frequency of each character has grown by the number of times that it is among the bytes.
  pub encode_bytes-Counts :
      (bytes : List ℕ) {n : ℕ} (arc : Coder)
      → IsReady HasWords arc
      → IsValid n arc.model
      → All (λ c. c < 256) bytes
      → n + length bytes < 2 ^ 32
      → Ends
          (λ arc'. IsReady HasWords arc' × Counts arc.model n bytes arc'.model)
          (encode_bytes self bytes arc)
  unfolding encode_bytes
  encode_bytes-Counts [] {n} arc r v bytes small =
      let same : n ≡ n + 0 = omega arith in
      ok-Ends _ _
        (r, record { valid = subst (λ k. IsValid k arc.model) same v; freq_lem = λ d. omega arith })
  encode_bytes-Counts (c ∷ cs) {n} arc r v (byte, bytes) small =
      bind-Ends _ _ _ _ (encode-Counts arc c r v byte (omega arith)) (λ arc' (r', counts).
        weaken-Ends _ _ (λ arc'' (r'', more). (r'', Counts-cons counts more))
          (encode_bytes-Counts cs arc' r' counts.valid bytes (omega arith)))
