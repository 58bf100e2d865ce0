-- ===== src/Ar64/DecodeLoop.antt =====
-- The loop of `dach_decode` follows the shifts of the encoder, and its code word stays in step.
use dach.Base.{
  ℕ, zero, suc, ◌+◌, ◌*◌, ◌^◌, ◌≤◌, ◌≡◌, refl, ap, ◌∙◌, arith, lt→ltb, List, [], ◌∷◌, ◌++◌, length,
  Result, ok,
}
use native.Mathlib.Nat.{pow-suc}
use dach.Model.{PpmApi}
use dach.Ar64.State.{Arc}
use dach.Ar64.Words.{IsBits, val}
use dach.Ar64.Input.{In, Fed}
use dach.Ar64.Interval.{IsInterval, IsNormal, Move, Move-Moved, Shifts, done, next}
use dach.Ar64.Masks.{same_top-across, straddles-IsNormal}
use dach.Ar64.Worth.{worth, Inside, Shifts-Inside}
use dach.Ar64.Coder.{decode_loop}
use dach.Ar64.DecodeRound.{Aligned, Aligned-bounds, stepped, Move-Round}

-- `result` is the coder with the interval `low'` .. `high'`, its code word in step with the code.
pub record Followed (output : List ℕ) (low' high' k w : ℕ) {M : Type 0} (arc : Arc M)
    (result : Result (Arc M)) : Type 0 where
  pub inner' : In
  pub esym' : ℕ
  pub returns : result ≡ ok (stepped arc inner' esym' low' high')
  pub aligned : Aligned output inner' esym' k w

module _ (api : PpmApi) (self : ℕ) (arc : Arc api.Model) (size : arc.io_buffer_size ≡ 32)
    {output : List ℕ} where
  decode_loop-done :
      {inner : In} {low high k w : ℕ} (fuel esym : ℕ)
      → Aligned output inner esym k w
      → IsInterval low high
      → IsNormal low high
      → Followed output low high k w arc
          (decode_loop api self (suc fuel) (stepped arc inner esym low high))
  unfolding decode_loop
  decode_loop-done {inner} {low} {high} fuel esym a i n = record {
    inner' = inner;
    esym' = esym;
    returns =
        rw
          (
            lt→ltb low high i.some_width,
            same_top-across api self (stepped arc inner esym low high) i n.low_lt n.high_ge,
            straddles-IsNormal api self (stepped arc inner esym low high) i n,
          )
          refl;
    aligned = a;
  }

  -- The shift of a code and of its code word.
  decode_loop-next :
      {inner : In} {v low high low₁ high₁ low' high' k j w u : ℕ} (fuel esym : ℕ)
      → IsInterval low high
      → Move v low high low₁ high₁
      → Inside low high (suc j) (v * 2 ^ 31 * 2 ^ j + u)
      → (a : Aligned output inner esym (suc j) (v * 2 ^ 31 * 2 ^ j + u))
      → ((inner₁ : In) (esym₁ : ℕ)
          → Aligned output inner₁ esym₁ j u
          → Followed output low' high' k w arc
              (decode_loop api self fuel (stepped arc inner₁ esym₁ low₁ high₁)))
      → Followed output low' high' k w arc
          (decode_loop api self (suc fuel) (stepped arc inner esym low high))
  unfolding val
  decode_loop-next {inner} {v} {low} {high} {low₁} {high₁} {low'} {high'} {k} {j} {w} {u} fuel esym
        i m inside a rest =
      go a.front a.front_bits a.length_front a.fed a.code
    where
      go :
          (front : List ℕ)
          → IsBits front
          → length front ≡ suc j
          → Fed output inner (front ++ a.back)
          → esym * 2 ^ suc j + val front ≡ v * 2 ^ 31 * 2 ^ j + u
          → Followed output low' high' k w arc
              (decode_loop api self (suc fuel) (stepped arc inner esym low high))
      go [] hs l f c = absurd (omega arith)
      go (b ∷ bs) (hb, hbs) l f c =
          let (lo, hi) = Aligned-bounds a inside in
          let r = Move-Round api self arc size hb fuel esym f i lo hi m in
          let len : length bs ≡ j = omega arith in
          let s = rest r.inner' r.esym' (record {
            front = bs;
            back = a.back;
            front_bits = hbs;
            length_front = len;
            fed = r.fed;
            code = omega (
              arith,
              c,
              ap (λ (t : ℕ). esym * t) (pow-suc 2 j),
              ap (λ (t : ℕ). b * 2 ^ t) len,
              ap (λ (t : ℕ). t * 2 ^ j) r.moved,
            );
          }) in
          record {
            inner' = s.inner';
            esym' = s.esym';
            returns = r.continues ∙ s.returns;
            aligned = s.aligned;
          }

  -- With a round of fuel for each shift and one more, the loop returns.
  pub decode_loop-Followed :
      {low high low' high' : ℕ} {vs : List ℕ}
      → Shifts low high low' high' vs
      → (ws : List ℕ) (fuel esym : ℕ) {inner : In} → length vs ≤ fuel
      → IsInterval low high
      → Inside low' high' (length ws) (worth ws)
      → Aligned output inner esym (length (vs ++ ws)) (worth (vs ++ ws))
      → Followed output low' high'
          (length ws)
          (worth ws)
          arc
          (decode_loop api self (suc fuel) (stepped arc inner esym low high))
  unfolding worth
  decode_loop-Followed (done n) ws fuel esym le i inside a = decode_loop-done fuel esym a i n
  decode_loop-Followed (next m s) ws zero esym le i inside a = absurd (omega arith)
  decode_loop-Followed (next m s) ws (suc fuel) esym le i inside a =
      decode_loop-next (suc fuel) esym i m (Shifts-Inside ws (next m s) inside) a
        (λ inner₁ esym₁ a₁.
          decode_loop-Followed s ws fuel esym₁ (omega arith) ((Move-Moved m).interval) inside a₁)
