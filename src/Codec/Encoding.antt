-- ===== src/Codec/Encoding.antt =====
-- `encode` of a file, along the trace of its bytes.
use dach.Base.{
  ℕ, suc, ◌+◌, ◌^◌, ◌<◌, ◌≡◌, ap, ◌∙◌, arith, List, ◌∷◌, ◌++◌, length, length-append, Result, ok,
  u64,
}
use dach.Ppm0.{Ppm0}
use dach.Ppm0.Api.{ppm0_api, ppm0_laws}
use dach.Ar64.State.{Arc}
use dach.Ar64.Output.{Out}
use dach.Ar64.Interval.{IsNormal}
use dach.Ar64.Narrow.{width}
use dach.Ar64.Emit.{Emitted, shifted}
use dach.Ar64.EncodeLoop.{pushed, pushed-append}
use dach.Ar64.Encode.{coding, encode-Encoded}
use dach.Ar64.Trace.{Trace, end, turn}
use dach.Ar64.Coder.{encode}
use dach.Codec.{encode_bytes}

-- `result` is the coder behind the last byte.
pub record AllEncoded (input before : List ℕ) (P N total : ℕ) (arc : Arc Ppm0)
    (result : Result (Arc Ppm0)) : Type 0 where
  pub model : Ppm0
  pub n : ℕ
  pub low : ℕ
  pub high : ℕ
  pub out : Out
  pub owed : ℕ
  pub range : ℕ
  pub returns : result ≡ ok (coding arc model n low high out owed range total)
  pub normal : IsNormal low high
  pub emitted : Emitted input before P N (shifted arc out owed low high)

module _ (self : ℕ) where
  encode_bytes-suc :
      (arc : Arc Ppm0) {next : Arc Ppm0} {result : Result (Arc Ppm0)} (c : ℕ) (cs : List ℕ)
      → encode ppm0_api self arc c ≡ ok next
      → encode_bytes self cs next ≡ result
      → encode_bytes self (c ∷ cs) arc ≡ result
  unfolding encode_bytes
  encode_bytes-suc arc c cs e rest = rw e rest

  module _ (arc : Arc Ppm0) (size : arc.io_buffer_size ≡ 32) {input before : List ℕ} where
    pub encode_bytes-AllEncoded :
        {m : Ppm0} {n low high P N : ℕ} {chrs vs : List ℕ}
        → Trace ppm0_api ppm0_laws m n low high chrs vs
        → (out : Out) (owed range total : ℕ) → N + length vs < 2 ^ 32
        → total + length chrs < 2 ^ 64
        → Emitted input before P N (shifted arc out owed low high)
        → AllEncoded input before
            (pushed P vs)
            (N + length vs)
            (total + length chrs)
            arc
            (encode_bytes self chrs (coding arc m n low high out owed range total))
    unfolding encode_bytes pushed
    encode_bytes-AllEncoded {m} {n} {low} {high} {P} {N} (end s) out owed range total small short
          e =
        let same : N + 0 ≡ N = omega arith in
        let count : total ≡ total + 0 = omega arith in
        record {
          model = m;
          n = n;
          low = low;
          high = high;
          out = out;
          owed = owed;
          range = range;
          returns = ap (λ t. ok (coding arc m n low high out owed range t)) count;
          normal = s.normal;
          emitted = rw same e;
        }
    encode_bytes-AllEncoded {m} {n} {low} {high} {P} {N}
          (turn {chr = chr} {chrs = chrs} {ws = ws} s t rest) out owed range total small short e =
        let parts = length-append {0} t.vs ws in
        let c =
          encode-Encoded ppm0_api ppm0_laws self arc size out owed range total s t
            (omega (arith, parts)) e in
        let count : u64 (total + 1) ≡ total + 1 = omega arith in
        let all : total + 1 + length chrs ≡ total + suc (length chrs) = omega arith in
        let bits : N + length t.vs + length ws ≡ N + length (t.vs ++ ws) = omega (arith, parts) in
        let tail =
          encode_bytes-AllEncoded rest c.out c.owed (width low high) (total + 1)
            (omega (arith, parts)) (omega arith) c.emitted in
        rw (← all, ← bits, pushed-append P t.vs ws)
          (record {
            model = tail.model;
            n = tail.n;
            low = tail.low;
            high = tail.high;
            out = tail.out;
            owed = tail.owed;
            range = tail.range;
            returns =
                encode_bytes-suc (coding arc m n low high out owed range total) chr chrs
                  (c.returns
                    ∙ ap
                        (λ t'. ok (
                          coding arc t.model (n + 1) t.low' t.high' c.out c.owed (width low high)
                            t'))
                        count)
                  tail.returns;
            normal = tail.normal;
            emitted = tail.emitted;
          })
