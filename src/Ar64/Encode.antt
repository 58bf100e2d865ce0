-- ===== src/Ar64/Encode.antt =====
-- `dach_encode` takes one turn of the trace.
use dach.Base.{ℕ, ◌+◌, ◌^◌, ◌<◌, ◌≡◌, refl, arith, List, length, Result, ok, u64}
use dach.Model.{PpmApi, PpmLaws}
use dach.Ar64.State.{Arc}
use dach.Ar64.Output.{Out}
use dach.Ar64.Narrow.{width, narrow_low, narrow_high, encode_step_lem, narrow-IsInterval}
use dach.Ar64.Emit.{Emitted, shifted}
use dach.Ar64.EncodeLoop.{pushed, encode_loop-Looped}
use dach.Ar64.Trace.{Turn, Stage, Stage-wide}
use dach.Ar64.Coder.{encode}

module _ {M : Type 0} where
  -- The coder after some characters.
  abbrev pub coding : Arc M → (m : M) (n low high : ℕ) → Out → (owed range total : ℕ) → Arc M
  coding arc m n low high out owed range total = record (shifted arc out owed low high) {
    model = m;
    scale = n;
    range = range;
    total_syms = total;
  }

  -- What was put out does not depend on the other fields.
  pub Emitted-shifted :
      {input before : List ℕ} {P N low high : ℕ} {out : Out} {owed : ℕ} (arc arc' : Arc M)
      → arc'.io_buffer_size ≡ 32
      → Emitted input before P N (shifted arc out owed low high)
      → (low' high' : ℕ) → Emitted input before P N (shifted arc' out owed low' high')
  Emitted-shifted arc arc' size e low' high' = record {
    bits = e.bits;
    is_bits = e.is_bits;
    written = e.written;
    size = size;
    value = e.value;
    count = e.count;
  }

-- `result` is the coder after a character.
pub record Encoded (input before : List ℕ) (P N : ℕ) {M : Type 0} (m : M)
    (n low high range total : ℕ) (arc : Arc M) (result : Result (Arc M)) : Type 0 where
  pub out : Out
  pub owed : ℕ
  pub returns : result ≡ ok (coding arc m n low high out owed range total)
  pub emitted : Emitted input before P N (shifted arc out owed low high)

module _ (api : PpmApi) (laws : PpmLaws api) (self : ℕ) (arc : Arc api.Model)
    (size : arc.io_buffer_size ≡ 32) {input before : List ℕ} where
  -- For a model and a normal interval with room for the character, and fewer than 2 ^ 32 bits so far, `dach_encode`
  -- returns. The interval is shifted until it is normal again, the output has grown by the bits of these shifts, and
  -- the model counts the character.
  pub encode-Encoded :
      {m : api.Model} {n low high chr P N : ℕ} (out : Out) (owed range total : ℕ)
      → Stage api laws m n low high
      → (t : Turn api laws m n low high chr) → N + length t.vs < 2 ^ 32
      → Emitted input before P N (shifted arc out owed low high)
      → Encoded input before
          (pushed P t.vs)
          (N + length t.vs)
          t.model
          (n + 1)
          t.low'
          t.high'
          (width low high)
          (u64 (total + 1))
          arc
          (encode api self (coding arc m n low high out owed range total) chr)
  unfolding encode
  encode-Encoded {m} {n} {low} {high} out owed range total s t small e =
      let before_loop : Arc api.Model =
        coding arc m n (narrow_low low high n t.range.from) (narrow_high low high n t.range.to) out
          owed (width low high) (u64 (total + 1)) in
      let l =
        encode_loop-Looped api self before_loop t.shifts 32 out owed (omega (arith, t.few)) small
          (narrow-IsInterval s.interval t.range.nonempty t.range.inside (Stage-wide api laws s))
          (Emitted-shifted arc before_loop size e _ _) in
      record {
        out = l.out;
        owed = l.owed;
        returns =
            rw
              (
                t.range.of_chr,
                encode_step_lem api self (coding arc m n low high out owed range total) s.interval
                    refl t.range (Stage-wide api laws s),
                l.returns,
                t.updates,
              )
              refl;
        emitted = Emitted-shifted before_loop arc size l.emitted _ _;
      }
