-- ===== src/Ar64/EncodeLoop.antt =====
-- The loop of `dach_encode` shifts the interval until it is normal.
use dach.Base.{
  ℕ, zero, suc, ◌+◌, ◌*◌, ◌^◌, ◌≤◌, ◌<◌, ◌≡◌, refl, ◌∙◌, arith, List, [], ◌∷◌, ◌++◌, length, Result,
  ok,
}
use dach.Model.{PpmApi}
use dach.Ar64.State.{Arc}
use dach.Ar64.Output.{Out}
use dach.Ar64.Interval.{IsInterval, IsNormal, Move-Moved, Shifts, done, next}
use dach.Ar64.Masks.{same_top-across, straddles-IsNormal}
use dach.Ar64.Emit.{Emitted, Stepped, shifted, step-Stepped}
use dach.Ar64.Coder.{encode_loop}

-- The halves that a sequence of shifts adds up.
unfoldable pub pushed : ℕ → List ℕ → ℕ
pushed P [] = P
pushed P (v ∷ vs) = pushed (2 * P + v) vs

pub pushed-append : (P : ℕ) (vs ws : List ℕ) → pushed P (vs ++ ws) ≡ pushed (pushed P vs) ws
unfolding pushed
pushed-append P [] ws = refl
pushed-append P (v ∷ vs) ws = pushed-append (2 * P + v) vs ws

-- `result` is `arc` with the interval and the output after the shifts `vs`.
pub record Looped (input before : List ℕ) (P N low' high' : ℕ) (vs : List ℕ) {M : Type 0}
    (arc : Arc M) (result : Result (Arc M)) : Type 0 where
  pub out : Out
  pub owed : ℕ
  pub returns : result ≡ ok (shifted arc out owed low' high')
  pub emitted : Emitted input before (pushed P vs) (N + length vs) (shifted arc out owed low' high')

module _ (api : PpmApi) (self : ℕ) (arc : Arc api.Model) {input before : List ℕ} where
  encode_loop-done :
      {low high P N : ℕ} (fuel : ℕ) (out : Out) (owed : ℕ)
      → Emitted input before P N (shifted arc out owed low high)
      → IsInterval low high
      → IsNormal low high
      → Looped input before P N low high [] arc
          (encode_loop api self (suc fuel) (shifted arc out owed low high))
  unfolding encode_loop pushed
  encode_loop-done {low} {high} {P} {N} fuel out owed e i n =
      let same : N + 0 ≡ N = omega arith in
      record {
        out = out;
        owed = owed;
        returns =
            rw
              (
                same_top-across api self (shifted arc out owed low high) i n.low_lt n.high_ge,
                straddles-IsNormal api self (shifted arc out owed low high) i n,
              )
              refl;
        emitted = rw same e;
      }

  encode_loop-next :
      {v low high low₁ high₁ low' high' P N fuel : ℕ} {vs : List ℕ} (out : Out) (owed : ℕ)
      → (s : Stepped input before
          (2 * P + v)
          (N + 1)
          low₁
          high₁
          api
          self
          fuel
          (shifted arc out owed low high))
      → Looped input before
          (2 * P + v)
          (N + 1)
          low'
          high'
          vs
          arc
          (encode_loop api self fuel (shifted arc s.out s.owed low₁ high₁))
      → Looped input before P N low' high'
          (v ∷ vs)
          arc
          (encode_loop api self (suc fuel) (shifted arc out owed low high))
  unfolding pushed
  encode_loop-next {N = N} {vs = vs} out owed s rest =
      let more : N + suc (length vs) ≡ N + 1 + length vs = omega arith in
      record {
        out = rest.out;
        owed = rest.owed;
        returns = s.continues ∙ rest.returns;
        emitted = rw more (rest.emitted);
      }

  -- With a round of fuel for each shift and one more, the loop returns.
  pub encode_loop-Looped :
      {low high low' high' P N : ℕ} {vs : List ℕ}
      → Shifts low high low' high' vs
      → (fuel : ℕ) (out : Out) (owed : ℕ) → length vs ≤ fuel
      → N + length vs < 2 ^ 32
      → IsInterval low high
      → Emitted input before P N (shifted arc out owed low high)
      → Looped input before P N low' high' vs arc
          (encode_loop api self (suc fuel) (shifted arc out owed low high))
  encode_loop-Looped (done n) fuel out owed le small i e = encode_loop-done fuel out owed e i n
  encode_loop-Looped (next m shifts) zero out owed le small i e = absurd (omega arith)
  encode_loop-Looped {low} {high} (next m shifts) (suc fuel) out owed le small i e =
      let s =
        step-Stepped api self (suc fuel) (shifted arc out owed low high) e i (omega arith) m in
      encode_loop-next out owed s (
        encode_loop-Looped shifts fuel s.out s.owed (omega arith) (omega arith)
          ((Move-Moved m).interval) (s.emitted))
