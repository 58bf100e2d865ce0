-- ===== src/Ar64/Worth.antt =====
-- The number that the encoder sends for a sequence of shifts, and why it lies in every interval.
use dach.Base.{ℕ, suc, ◌+◌, ◌*◌, ◌^◌, ◌≤◌, ◌<◌, ◌≡◌, ap, arith, List, [], ◌∷◌, ◌++◌, length}
use native.Mathlib.Nat.{pow-suc, mul-le-mul_right}
use dach.Model.{PpmApi, PpmLaws}
use dach.Ar64.Interval.{Shifts, done, next, Move, Move-Moved}
use dach.Ar64.Narrow.{calc-IsNarrow}
use dach.Ar64.EncodeLoop.{pushed}
use dach.Ar64.Trace.{Trace, end, turn, Stage-wide}

-- What is left of the code: the halves still to come, and the middle behind them.
unfoldable pub worth : List ℕ → ℕ
worth [] = 2 ^ 31
worth (v ∷ vs) = v * 2 ^ 31 * 2 ^ length vs + worth vs

-- The code from the start is the halves pushed out, and the middle.
pub pushed-worth :
    (P : ℕ) (vs : List ℕ) → (pushed P vs + 1) * 2 ^ 31 ≡ P * 2 ^ 31 * 2 ^ length vs + worth vs
unfolding pushed worth
pushed-worth P [] = omega arith
pushed-worth P (v ∷ vs) =
    omega (arith, pushed-worth (2 * P + v) vs, ap (λ (t : ℕ). P * t) (pow-suc 2 (length vs)))

-- The code word `w` of `k` more bits lies in the interval.
pub record Inside (low high k w : ℕ) : Type 0 where
  pub above : low * 2 ^ k ≤ w
  pub below : w < (high + 1) * 2 ^ k

Move-Inside :
    {v low high low' high' k w : ℕ}
    → Move v low high low' high'
    → Inside low' high' k w
    → Inside low high (suc k) (v * 2 ^ 31 * 2 ^ k + w)
Move-Inside {v} {low} {high} {low'} {high'} {k} {w} m i =
    let d = Move-Moved m in
    let lo = ap (λ (t : ℕ). t * 2 ^ k) d.low_eq in
    let hi = ap (λ (t : ℕ). t * 2 ^ k) d.high_eq in
    record {
      above = omega (arith, i.above, lo, ap (λ (t : ℕ). low * t) (pow-suc 2 k));
      below = omega (arith, i.below, hi, ap (λ (t : ℕ). high * t) (pow-suc 2 k), pow-suc 2 k);
    }

pub Shifts-Inside :
    {low high low' high' : ℕ} {vs : List ℕ} (ws : List ℕ)
    → Shifts low high low' high' vs
    → Inside low' high' (length ws) (worth ws)
    → Inside low high (length (vs ++ ws)) (worth (vs ++ ws))
unfolding worth
Shifts-Inside ws (done n) i = i
Shifts-Inside ws (next m s) i = Move-Inside m (Shifts-Inside ws s i)

-- A wider interval holds the code too.
Inside-widen :
    {low high low' high' k w : ℕ}
    → low ≤ low'
    → high' ≤ high
    → Inside low' high' k w
    → Inside low high k w
Inside-widen {k = k} lo hi i = record {
  above = omega (arith, i.above, mul-le-mul_right (2 ^ k) lo);
  below = omega (arith, i.below, mul-le-mul_right (2 ^ k) hi);
}

module _ (api : PpmApi) (laws : PpmLaws api) where
  pub Trace-Inside :
      {m : api.Model} {n low high : ℕ} {chrs vs : List ℕ}
      → Trace api laws m n low high chrs vs
      → Inside low high (length vs) (worth vs)
  unfolding worth
  Trace-Inside (end s) = record {
    above = omega (arith, s.normal.low_lt);
    below = omega (arith, s.normal.high_ge);
  }
  Trace-Inside (turn {ws = ws} s t rest) =
      let narrow =
        calc-IsNarrow s.interval t.range.nonempty t.range.inside (Stage-wide api laws s) in
      Inside-widen narrow.above narrow.below (Shifts-Inside ws t.shifts (Trace-Inside rest))
