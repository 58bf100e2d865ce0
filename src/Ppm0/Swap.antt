-- ===== src/Ppm0/Swap.antt =====
-- `dach_sym_swap` moves a symbol that is ahead of its predecessor up to its rank.
use dach.Base.{
  ℕ, zero, suc, ◌+◌, ◌-◌, ◌≤◌, ◌<◌, ◌^◌, ◌≡◌, ◌≢◌, refl, ap, arith, ltb, ◌==◌, if◌then◌else◌, put,
  ok, u64, Bool-cases, inl, inr, true, false, Result, Array, ltb→le, ltb→lt, lt→ltb,
}
use native.Mathlib.Decide.{ℕ_discrete}
use native.Mathlib.Numerals.{add-one}
use dach.Ppm0.{Ppm0, exchange, swap_step, sym_swap, sym_to_chr}
use dach.Ppm0.Inv.{
  IsSym, freq_of, cumfreq_of, IsRanking, Sums, IsSortedBut, IsSorted, sym_to_chr-injective,
  cumfreq-le,
}

-- The model after an exchange of the symbols `s` and `t`, `s` being the one that falls back.
abbrev pub exchanged : Ppm0 → ℕ → ℕ → Ppm0
exchanged ppm s t =
    let c = ppm.sym_to_chr s in
    let d = ppm.sym_to_chr t in
    record ppm {
      sym_to_chr = put (put ppm.sym_to_chr s d) t c;
      chr_to_sym = put (put ppm.chr_to_sym c t) d s;
      cumfreq = put (put ppm.cumfreq c (ppm.cumfreq d)) d (u64 (ppm.cumfreq c + 2 ^ 64 - 1));
    }

module _ {ppm : Ppm0} (r : IsRanking ppm) (s t : ℕ) (hs : IsSym s) (ht : IsSym t) where
  exchange_lem : exchange ppm s t (ppm.sym_to_chr s) (ppm.sym_to_chr t) ≡ ok (exchanged ppm s t)
  unfolding exchange
  exchange_lem = ground (arith, r.chr_le s hs, r.chr_le t ht)

  swap_step_lem :
      swap_step ppm s t
      ≡ ok (if ltb (freq_of ppm t) (freq_of ppm s) then (true, exchanged ppm s t) else (false, ppm))
  unfolding swap_step sym_to_chr
  swap_step_lem = ground (arith, r.chr_le s hs, r.chr_le t ht, exchange_lem)

module _ {ppm : Ppm0} (r : IsRanking ppm) (t : ℕ) (ht : IsSym t) (hs : IsSym (t + 1)) where
  apart : ppm.sym_to_chr (t + 1) ≢ ppm.sym_to_chr t
  apart e = omega (arith, sym_to_chr-injective r (t + 1) t hs ht e)

  -- The characters and frequencies after the exchange, symbol by symbol.
  sym_to_chr-exchanged :
      (u : ℕ)
      → (exchanged ppm (t + 1) t).sym_to_chr u ≡ (
          if u == t
          then ppm.sym_to_chr (t + 1)
          else (if u == t + 1 then ppm.sym_to_chr t else ppm.sym_to_chr u))
  sym_to_chr-exchanged u = ground arith

  module _ (inner : t ≤ 255) where
    exchanged-IsRanking : IsRanking (exchanged ppm (t + 1) t)
    exchanged-IsRanking = record {
      chr_le = λ u hu. ground (arith, r.chr_le u hu, r.chr_le t ht, r.chr_le (t + 1) hs);
      sym_of_chr = λ u hu. ground (
        arith,
        apart,
        r.sym_of_chr u hu,
        sym_to_chr-injective r u t hu ht,
        sym_to_chr-injective r u (t + 1) hu hs,
      );
      sym_in = λ c hc. ground (arith, r.sym_in c hc);
      chr_of_sym = λ c hc. ground (
        arith,
        apart,
        r.sym_in c hc,
        r.chr_of_sym c hc,
        r.sym_of_chr t ht,
        r.sym_of_chr (t + 1) hs,
      );
      last = ground (arith, r.last);
      spare = ground (arith, r.spare);
      spare_cumfreq = ground (arith, r.spare_cumfreq, r.chr_le t ht, r.chr_le (t + 1) hs);
    }

  freq_of-exchanged :
      (u : ℕ)
      → freq_of (exchanged ppm (t + 1) t) u ≡ (
          if u == t
          then freq_of ppm (t + 1)
          else (if u == t + 1 then freq_of ppm t else freq_of ppm u))
  freq_of-exchanged u = ground arith

  cumfreq_of-exchanged :
      (u : ℕ)
      → 1 ≤ u
      → u ≤ 258
      → cumfreq_of (exchanged ppm (t + 1) t) u
        ≡ (if u == t + 1 then u64 (cumfreq_of ppm u + 2 ^ 64 - 1) else cumfreq_of ppm u)
  cumfreq_of-exchanged u lo hi =
      ground (arith, apart, sym_to_chr-injective r u t, sym_to_chr-injective r u (t + 1))

  module _ {k n : ℕ} (u : Sums ppm k n) (small : n < 2 ^ 32) (inside : t + 1 ≤ k) (inner : t ≤ 255)
      (o : IsSortedBut ppm (t + 1)) (ahead : freq_of ppm t < freq_of ppm (t + 1)) where
    -- The symbol was ahead by exactly one.
    ahead_by_one : freq_of ppm (t + 1) ≡ freq_of ppm t + 1
    ahead_by_one = omega (arith, o.before t ht refl)

    -- What the code subtracts from the cumulative frequency is there.
    cumfreq_of-pred : u64 (cumfreq_of ppm (t + 1) + 2 ^ 64 - 1) + 1 ≡ cumfreq_of ppm (t + 1)
    cumfreq_of-pred =
        ground (arith, u.step (t + 1) hs, cumfreq-le u t, o.positive (t + 1 + 1), o.after)

    exchanged-Sums : Sums (exchanged ppm (t + 1) t) k n
    exchanged-Sums = record {
      step = λ v hv. ground (
        arith,
        freq_of-exchanged v,
        cumfreq_of-exchanged v,
        cumfreq_of-exchanged (v + 1),
        cumfreq_of-pred,
        ahead_by_one,
        u.step v hv,
      );
      top = ground (arith, cumfreq_of-exchanged 1, u.top);
    }

    exchanged-IsSortedBut : IsSortedBut (exchanged ppm (t + 1) t) t
    exchanged-IsSortedBut = record {
      positive = λ v hv. ground (arith, freq_of-exchanged v, o.positive v, o.positive t ht);
      sorted = λ v hv le ne. ground (
        arith,
        freq_of-exchanged v,
        freq_of-exchanged (v + 1),
        o.sorted v hv le,
        o.sorted t ht,
        o.after,
        ahead_by_one,
      );
      before = λ v hv e. ground (
        arith,
        freq_of-exchanged v,
        freq_of-exchanged t,
        ahead_by_one,
        o.sorted v hv (omega arith) (omega arith),
        ap (freq_of ppm) e,
      );
      after = ground (arith, freq_of-exchanged (t + 1), freq_of-exchanged t, ahead_by_one);
    }

-- `result` is a sorted ranking of the frequencies `freq`, with their sums up to `k` still owed.
pub record Ranked (freq : Array) (k n : ℕ) (result : Result Ppm0) : Type 0 where
  pub out : Ppm0
  pub returns : result ≡ ok out
  pub ranking : IsRanking out
  pub sums : Sums out k n
  pub order : IsSorted out
  pub same_freq : out.freq ≡ freq

-- A symbol that is not ahead of its predecessor is in order.
pub IsSortedBut-IsSorted :
    {ppm : Ppm0} (t : ℕ)
    → IsSortedBut ppm (t + 1)
    → (1 ≤ t → freq_of ppm (t + 1) ≤ freq_of ppm t)
    → IsSorted ppm
IsSortedBut-IsSorted {ppm} t o h = record {
  positive = o.positive;
  sorted = λ v hv le. elim (ℕ_discrete v t) [
    | yes e ↦ rw e (h (omega arith))
    | no ne ↦ o.sorted v hv le (omega arith)
  ];
}

module _ {ppm : Ppm0} (r : IsRanking ppm) (t : ℕ) (hi : suc t ≤ 255) where
  sym_swap_ahead :
      ltb (freq_of ppm (suc t)) (freq_of ppm (suc t + 1)) ≡ true
      → sym_swap ppm (suc t + 1) (suc t) ≡ (
          if ltb 1 (suc t)
          then sym_swap (exchanged ppm (suc t + 1) (suc t)) (t + 1) t
          else ok (exchanged ppm (suc t + 1) (suc t)))
  unfolding sym_swap
  sym_swap_ahead e =
      rw (swap_step_lem r (suc t + 1) (suc t) (omega arith) (omega arith), e, add-one t)

  sym_swap_behind :
      ltb (freq_of ppm (suc t)) (freq_of ppm (suc t + 1)) ≡ false
      → sym_swap ppm (suc t + 1) (suc t) ≡ ok ppm
  unfolding sym_swap
  sym_swap_behind e = rw (swap_step_lem r (suc t + 1) (suc t) (omega arith) (omega arith), e)

-- What the recursive call has to give, for either outcome of `sym2 > 1`.
continue :
    (t : ℕ) (ppm : Ppm0) {k n : ℕ}
    → suc t + 1 ≤ k
    → IsRanking ppm
    → Sums ppm k n
    → IsSortedBut ppm (suc t)
    → (1 ≤ t → t + 1 ≤ k → IsSortedBut ppm (t + 1) → Ranked ppm.freq k n (sym_swap ppm (t + 1) t))
    → Ranked ppm.freq k n (if ltb 1 (suc t) then sym_swap ppm (t + 1) t else ok ppm)
continue zero ppm inside r u o rec = record {
  out = ppm;
  returns = refl;
  ranking = r;
  sums = u;
  order = IsSortedBut-IsSorted 0 o (λ h. absurd (omega arith));
  same_freq = refl;
}
continue (suc t) ppm inside r u o rec =
    rw (lt→ltb 1 (suc (suc t)) (omega arith))
      (rec (omega arith) (omega arith) (rw (add-one (suc t)) o))

pub sym_swap-Ranked :
    (t : ℕ) {ppm : Ppm0} {k n : ℕ}
    → 1 ≤ t
    → t ≤ 255
    → t + 1 ≤ k
    → n < 2 ^ 32
    → IsRanking ppm
    → Sums ppm k n
    → IsSortedBut ppm (t + 1)
    → Ranked ppm.freq k n (sym_swap ppm (t + 1) t)
sym_swap-Ranked zero lo hi inside small r u o = absurd (omega arith)
sym_swap-Ranked (suc t) {ppm} {k} {n} lo hi inside small r u o =
    elim (Bool-cases (ltb (freq_of ppm (suc t)) (freq_of ppm (suc t + 1)))) [
      | inl e ↦
          let ht : IsSym (suc t) = omega arith in
          let hs : IsSym (suc t + 1) = omega arith in
          let lt = ltb→lt _ _ e in
          rw (sym_swap_ahead r t hi e) (
            continue t (exchanged ppm (suc t + 1) (suc t)) inside
              (exchanged-IsRanking r (suc t) ht hs hi)
              (exchanged-Sums r (suc t) ht hs u small inside hi o lt)
              (exchanged-IsSortedBut r (suc t) ht hs u small inside hi o lt)
              (λ lo' inside' o'.
                sym_swap-Ranked t lo' (omega arith) inside' small
                  (exchanged-IsRanking r (suc t) ht hs hi)
                  (exchanged-Sums r (suc t) ht hs u small inside hi o lt) o'))
      | inr e ↦ record {
        out = ppm;
        returns = sym_swap_behind r t hi e;
        ranking = r;
        sums = u;
        order = IsSortedBut-IsSorted (suc t) o (λ _. ltb→le _ _ e);
        same_freq = refl;
      }
    ]
