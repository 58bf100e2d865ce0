-- ===== src/Ppm0/Find.antt =====
-- The searches and look-ups of a valid model: each returns, and what.
use dach.Base.{
  ℕ, zero, suc, ◌+◌, ◌-◌, ◌≤◌, ◌<◌, ◌≡◌, refl, ap, arith, ltb, if◌then◌else◌, ok, err, Bool-cases,
  inl, inr, Result, ltb→le, ltb→lt, ◌∙◌, assertion, subst,
}
use native.Mathlib.Decide.{dec_lt}
use native.Mathlib.Nat.{add-zero}
use dach.Ppm0.{Ppm0, sym_count, find_loop, find_sym, cumfreq, chr_to_sym, sym_to_chr}
use dach.Ppm0.Inv.{IsSym, cumfreq_of, IsValid, cumfreq-le}

-- `cumfreq` returns the sum of the frequencies from the symbol on, 0 past the last symbol.
pub cumfreq_lem :
    {ppm : Ppm0} {n : ℕ} (s : ℕ)
    → IsValid n ppm
    → 1 ≤ s
    → s ≤ 258
    → cumfreq ppm s ≡ ok (cumfreq_of ppm s)
unfolding cumfreq
cumfreq_lem s v lo hi = ground (arith, v.ranking.chr_le s)

-- The cumulative frequencies fall strictly from `n` at the first symbol.
pub cumfreq_of-lt :
    {ppm : Ppm0} {n : ℕ} (s : ℕ)
    → IsValid n ppm
    → IsSym s
    → cumfreq_of ppm (s + 1) < cumfreq_of ppm s
cumfreq_of-lt s v h = ground (arith, v.sums.step s h, v.order.positive s h)

-- The symbol whose range of cumulative frequencies holds `target`.
pub record IsFound (ppm : Ppm0) (target s : ℕ) : Type 0 where
  pub is_sym : IsSym s
  pub above : cumfreq_of ppm (s + 1) ≤ target
  pub below : target < cumfreq_of ppm s

-- Where the loop stops: past the last symbol above `target`.
record Stops (ppm : Ppm0) (target s : ℕ) (result : Result ℕ) : Type 0 where
  past : ℕ
  returns : result ≡ ok past
  from : s ≤ past
  to : past ≤ 258
  above_before : 2 ≤ past → target < cumfreq_of ppm (past - 1)
  not_above : cumfreq_of ppm past ≤ target

module _ {ppm : Ppm0} {n : ℕ} (v : IsValid n ppm) (target : ℕ) where
  find_loop-suc :
      (fuel s : ℕ)
      → 1 ≤ s
      → s ≤ 258
      → find_loop ppm target (suc fuel) s
        ≡ (if ltb target (cumfreq_of ppm s) then find_loop ppm target fuel (s + 1) else ok s)
  unfolding find_loop
  find_loop-suc fuel s lo hi = ground (arith, cumfreq_lem s v lo hi)

  find_loop-Stops :
      (fuel s : ℕ)
      → 1 ≤ s
      → s ≤ 258
      → 259 ≤ fuel + s
      → (2 ≤ s → target < cumfreq_of ppm (s - 1))
      → Stops ppm target s (find_loop ppm target fuel s)
  find_loop-Stops zero s lo hi enough h = absurd (omega arith)
  find_loop-Stops (suc fuel) s lo hi enough h = elim (Bool-cases (ltb target (cumfreq_of ppm s))) [
    | inl e ↦
        let inside : s ≤ 257 = ground arith in
        let back : s + 1 - 1 ≡ s = omega arith in
        let rest =
          find_loop-Stops fuel (s + 1) (omega arith) (omega arith) (omega arith)
            (λ _. rw back (ltb→lt _ _ e)) in
        record {
          past = rest.past;
          returns = find_loop-suc fuel s lo hi ∙ rw e rest.returns;
          from = omega (arith, rest.from);
          to = rest.to;
          above_before = rest.above_before;
          not_above = rest.not_above;
        }
    | inr e ↦ record {
      past = s;
      returns = find_loop-suc fuel s lo hi ∙ rw e refl;
      from = omega arith;
      to = hi;
      above_before = h;
      not_above = ltb→le _ _ e;
    }
  ]

  module _ (stop : Stops ppm target 1 (find_loop ppm target sym_count 1)) where
    past-below : target < n → 2 ≤ stop.past
    past-below small = elim (dec_lt stop.past 2) [
      | yes p ↦
          let e : stop.past ≡ 1 = omega (arith, stop.from) in
          let low : cumfreq_of ppm 1 ≤ target =
            subst (λ s. cumfreq_of ppm s ≤ target) e stop.not_above in
          absurd (omega (arith, v.sums.top))
      | no p ↦ omega arith
    ]

    past-above : n ≤ target → stop.past ≡ 1
    past-above big = elim (dec_lt 1 stop.past) [
      | yes p ↦
          let back : stop.past - 1 ≡ suc (stop.past - 2) = omega arith in
          let up : suc (stop.past - 2) ≡ stop.past - 2 + 1 = omega arith in
          let low = cumfreq-le v.sums (stop.past - 2) (omega (arith, stop.to)) in
          let high : target < cumfreq_of ppm (stop.past - 2 + 1) =
            rw (← up, ← back) (stop.above_before p) in
          absurd (omega arith)
      | no p ↦ omega (arith, stop.from)
    ]

    stop-IsFound : target < n → IsFound ppm target (stop.past - 1)
    stop-IsFound small =
        let later = past-below small in
        let e : stop.past - 1 + 1 ≡ stop.past = omega arith in
        record {
          is_sym = omega (arith, stop.to);
          above = rw e stop.not_above;
          below = stop.above_before later;
        }

    find_sym-below : target < n → find_sym ppm target ≡ ok (stop.past - 1)
    unfolding find_sym
    find_sym-below small = rw stop.returns (ground (arith, past-below small))

    find_sym-above : n ≤ target → find_sym ppm target ≡ err assertion
    unfolding find_sym
    find_sym-above big = rw stop.returns (ground (arith, past-above big))

  search-Stops : Stops ppm target 1 (find_loop ppm target sym_count 1)
  search-Stops =
      find_loop-Stops sym_count 1 (omega arith) (omega arith) (omega arith)
        (λ h. absurd (omega arith))

  -- In a valid model of `n` occurrences `dach_ppm0_find_sym` returns the symbol whose range of
  -- cumulative frequencies holds the target, for a target below `n`, and stops at its assertion
  -- for any other.
  pub find_sym-IsFound :
      (target < n → (s : ℕ) × (find_sym ppm target ≡ ok s) × IsFound ppm target s)
      × (n ≤ target → find_sym ppm target ≡ err assertion)
  find_sym-IsFound = (
    λ small.
        (search-Stops.past - 1, find_sym-below search-Stops small, stop-IsFound search-Stops small),
    λ big. find_sym-above search-Stops big,
  )

cumfreq_of-antitone :
    {ppm : Ppm0} {n : ℕ} (d s : ℕ)
    → IsValid n ppm
    → 1 ≤ s
    → s + d ≤ 258
    → cumfreq_of ppm (s + d) ≤ cumfreq_of ppm s
cumfreq_of-antitone zero s v lo hi = rw (add-zero s) (omega arith)
cumfreq_of-antitone {ppm} (suc d) s v lo hi =
    let e : s + suc d ≡ s + d + 1 = omega arith in
    rw e (
      omega
        (arith, cumfreq_of-lt (s + d) v (omega arith), cumfreq_of-antitone d s v lo (omega arith)))

-- No two symbols hold the same target.
pub IsFound-unique :
    {ppm : Ppm0} {n : ℕ} (target s t : ℕ)
    → IsValid n ppm
    → IsFound ppm target s
    → IsFound ppm target t
    → s ≡ t
IsFound-unique {ppm} target s t v f g = elim (dec_lt s t) [
  | yes p ↦ absurd (clash s t f g p)
  | no p ↦ elim (dec_lt t s) [ yes q ↦ absurd (clash t s g f q) | no q ↦ omega arith ]
]
  where
    clash : (a b : ℕ) → IsFound ppm target a → IsFound ppm target b → a < b → ⊥
    clash a b fa fb lt =
        let e : a + 1 + (b - (a + 1)) ≡ b = omega arith in
        let le : cumfreq_of ppm b ≤ cumfreq_of ppm (a + 1) =
          rw e at (
            cumfreq_of-antitone (b - (a + 1)) (a + 1) v (omega arith) (omega (arith, fb.is_sym))) in
        omega (arith, fa.above, fb.below)

-- `chr_to_sym` finds the symbol of every byte, which is never the last one, and `sym_to_chr` gives
-- the byte back.
pub sym_to_chr-chr_to_sym :
    {ppm : Ppm0} {n : ℕ} (c : ℕ)
    → IsValid n ppm
    → c ≤ 255
    → (s : ℕ) × (chr_to_sym ppm c ≡ ok s) × (1 ≤ s) × (s ≤ 256) × (sym_to_chr ppm s ≡ ok c)
unfolding chr_to_sym sym_to_chr
sym_to_chr-chr_to_sym {ppm} c v hc = (
  ppm.chr_to_sym c,
  ground arith,
  omega (arith, v.ranking.sym_in c (omega arith)),
  inner,
  ground (arith, v.ranking.sym_in c, v.ranking.chr_of_sym c),
)
  where
    inner : ppm.chr_to_sym c ≤ 256
    inner = elim (dec_lt 256 (ppm.chr_to_sym c)) [
      | yes p ↦
          let e : ppm.chr_to_sym c ≡ 257 = omega (arith, v.ranking.sym_in c (omega arith)) in
          absurd (
            omega
              (arith, ap ppm.sym_to_chr e, v.ranking.last, v.ranking.chr_of_sym c (omega arith)))
      | no p ↦ omega arith
    ]
