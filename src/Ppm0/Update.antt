-- ===== src/Ppm0/Update.antt =====
-- `dach_ppm0_update` counts one more occurrence of a symbol's character and keeps the invariant.
use dach.Base.{
  subst, ℕ, zero, suc, ◌+◌, ◌-◌, ◌≤◌, ◌<◌, ◌^◌, ◌≡◌, refl, ap, arith, ltb, ◌==◌, if◌then◌else◌, put,
  ok, Result, Array, lt→ltb, ◌∙◌, sym,
}
use dach.Ppm0.{Ppm0, sym_count, inc_freq, inc_cumfreq, inc_loop, update, cumfreq, sym_swap, settle}
use dach.Ppm0.Inv.{
  IsSym, freq_of, cumfreq_of, IsRanking, Sums, IsSortedBut, IsSorted, IsValid, sym_to_chr-injective,
  cumfreq-le,
}
use dach.Ppm0.Swap.{Ranked, sym_swap-Ranked, IsSortedBut-IsSorted}

abbrev counted : Ppm0 → ℕ → Ppm0
counted ppm s = record ppm {
  cumfreq = put ppm.cumfreq (ppm.sym_to_chr s) (ppm.cumfreq (ppm.sym_to_chr s) + 1);
}

abbrev seen : Ppm0 → ℕ → Ppm0
seen ppm s = record ppm { freq = put ppm.freq (ppm.sym_to_chr s) (freq_of ppm s + 1) }

module _ {ppm : Ppm0} {k n : ℕ} (r : IsRanking ppm) (small : n < 2 ^ 32) (u : Sums ppm (suc k) n)
    (inside : suc k ≤ 257) where
  inc_cumfreq_lem : inc_cumfreq ppm (suc k) ≡ ok (counted ppm (suc k))
  unfolding inc_cumfreq
  inc_cumfreq_lem = ground (arith, r.chr_le (suc k), cumfreq-le u k)

  counted-IsRanking : IsRanking (counted ppm (suc k))
  counted-IsRanking = record {
    chr_le = r.chr_le;
    sym_of_chr = r.sym_of_chr;
    sym_in = r.sym_in;
    chr_of_sym = r.chr_of_sym;
    last = r.last;
    spare = r.spare;
    spare_cumfreq = ground (arith, r.spare_cumfreq, r.chr_le (suc k));
  }

  cumfreq_of-counted :
      (t : ℕ)
      → 1 ≤ t
      → t ≤ 258
      → cumfreq_of (counted ppm (suc k)) t ≡ cumfreq_of ppm t + (if t == suc k then 1 else 0)
  cumfreq_of-counted t lo hi = ground (arith, sym_to_chr-injective r t (suc k))

  counted-Sums : Sums (counted ppm (suc k)) k n
  counted-Sums = record {
    step = λ t ht. ground (arith, u.step t ht, cumfreq_of-counted t, cumfreq_of-counted (t + 1));
    top = ground (arith, u.top, cumfreq_of-counted 1);
  }

inc_loop-Ranked :
    (k : ℕ) {ppm : Ppm0} {n : ℕ}
    → k ≤ 257
    → n < 2 ^ 32
    → IsRanking ppm
    → Sums ppm k n
    → IsSorted ppm
    → Ranked ppm.freq 0 n (inc_loop k ppm)
inc_loop-Ranked zero {ppm} inside small r u o = record {
  out = ppm;
  returns = unfold inc_loop in refl;
  ranking = r;
  sums = u;
  order = o;
  same_freq = refl;
}
inc_loop-Ranked (suc k) {ppm} {n} inside small r u o = subst (Ranked ppm.freq 0 n) (sym first) (
    inc_loop-Ranked k (omega arith) small (counted-IsRanking r small u inside)
      (counted-Sums r small u inside) (record { positive = o.positive; sorted = o.sorted }))
  where
    first : inc_loop (suc k) ppm ≡ inc_loop k (counted ppm (suc k))
    first = unfold inc_loop in rw (inc_cumfreq_lem r small u inside)

module _ {ppm : Ppm0} {n : ℕ} (r : IsRanking ppm) (small : n + 1 < 2 ^ 32) (s : ℕ) (hs : IsSym s)
    (u : Sums ppm 0 n) (o : IsSorted ppm) where
  inc_freq_lem : inc_freq ppm s ≡ ok (seen ppm s)
  unfolding inc_freq
  inc_freq_lem = ground (arith, r.chr_le s hs, u.step s hs, cumfreq-le u (s - 1))

  seen-IsRanking : IsRanking (seen ppm s)
  seen-IsRanking = record {
    chr_le = r.chr_le;
    sym_of_chr = r.sym_of_chr;
    sym_in = r.sym_in;
    chr_of_sym = r.chr_of_sym;
    last = r.last;
    spare = r.spare;
    spare_cumfreq = r.spare_cumfreq;
  }

  freq_of-seen :
      (t : ℕ) → IsSym t → freq_of (seen ppm s) t ≡ freq_of ppm t + (if t == s then 1 else 0)
  freq_of-seen t ht = ground (arith, sym_to_chr-injective r t s)

  seen-Sums : Sums (seen ppm s) s (n + 1)
  seen-Sums = record {
    step = λ t ht. ground (arith, u.step t ht, freq_of-seen t ht);
    top = ground (arith, u.top);
  }

  seen-IsSortedBut : s ≤ 256 → IsSortedBut (seen ppm s) s
  seen-IsSortedBut inner = record {
    positive = λ t ht. ground (arith, freq_of-seen t ht, o.positive t ht);
    sorted =
        λ t ht le ne. ground (arith, freq_of-seen t ht, freq_of-seen (t + 1), o.sorted t ht le);
    before = λ t ht e.
        ground (arith, freq_of-seen t ht, freq_of-seen s hs, o.sorted t ht, ap (freq_of ppm) e);
    after = ground (arith, freq_of-seen s hs, freq_of-seen (s + 1), o.sorted s hs);
  }

-- `result` returns the count `n`, and a model of `n` occurrences with the frequencies `freq`.
pub record Updated (freq : Array) (n : ℕ) (result : Result (ℕ × Ppm0)) : Type 0 where
  pub out : Ppm0
  pub returns : result ≡ ok (n, out)
  pub valid : IsValid n out
  pub new_freq : out.freq ≡ freq

-- A symbol that may be ahead of its predecessor moves up, the first one stays.
move_up-Ranked :
    (s : ℕ) {ppm : Ppm0} {k n : ℕ}
    → IsSym s
    → s ≤ 256
    → s ≤ k
    → n < 2 ^ 32
    → IsRanking ppm
    → Sums ppm k n
    → IsSortedBut ppm s
    → Ranked ppm.freq k n (if ltb 1 s then sym_swap ppm s (s - 1) else ok ppm)
move_up-Ranked zero h hi inside small r u o = absurd (omega arith)
move_up-Ranked (suc zero) {ppm} h hi inside small r u o = record {
  out = ppm;
  returns = refl;
  ranking = r;
  sums = u;
  order = IsSortedBut-IsSorted 0 o (λ b. absurd (omega arith));
  same_freq = refl;
}
move_up-Ranked (suc (suc t)) {ppm} {k} {n} h hi inside small r u o =
    let e : suc (suc t) ≡ suc t + 1 = omega arith in
    let d : suc (suc t) - 1 ≡ suc t = omega arith in
    rw (lt→ltb 1 (suc (suc t)) (omega arith), d)
      (subst (λ x. Ranked ppm.freq k n (sym_swap ppm x (suc t))) (sym e)
        (sym_swap-Ranked (suc t) (omega arith) (omega arith) (omega arith) small r u
          (subst (IsSortedBut ppm) e o)))

settle_lem :
    (s : ℕ) {ppm : Ppm0} {n : ℕ}
    → IsRanking ppm
    → Sums ppm 0 n
    → settle ppm s ≡ ok (n, record ppm { sym_prev = s; scale = n })
unfolding settle cumfreq
settle_lem s r u = ground (arith, u.top, r.spare, r.spare_cumfreq, r.chr_le 1)

-- The fields that `settle` sets are not read by the ranking.
settled-IsValid :
    (s : ℕ) {ppm : Ppm0} {n : ℕ}
    → IsRanking ppm
    → Sums ppm 0 n
    → IsSorted ppm
    → IsValid n (record ppm { sym_prev = s; scale = n })
settled-IsValid s r u o = record {
  ranking = record {
    chr_le = r.chr_le;
    sym_of_chr = r.sym_of_chr;
    sym_in = r.sym_in;
    chr_of_sym = r.chr_of_sym;
    last = r.last;
    spare = r.spare;
    spare_cumfreq = r.spare_cumfreq;
  };
  sums = record { step = u.step; top = u.top };
  order = record { positive = o.positive; sorted = o.sorted };
  total = refl;
}

-- `dach_ppm0_update` on a symbol of a byte, in a model of `n` occurrences, returns `n + 1` and a
-- model of that many, in which only the frequency of the symbol's character has grown, by one.
pub update-Updated :
    {ppm : Ppm0} {n : ℕ} (s : ℕ)
    → IsValid n ppm
    → n + 1 < 2 ^ 32
    → 1 ≤ s
    → s ≤ 256
    → Updated (put ppm.freq (ppm.sym_to_chr s) (freq_of ppm s + 1)) (n + 1) (update ppm s)
update-Updated {ppm} {n} s v small lo hi = record {
  out = record done.out { sym_prev = s; scale = n + 1 };
  returns =
      unfold update in
      rw
        (
          lt→ltb 0 s lo,
          lt→ltb s sym_count (omega arith),
          inc_freq_lem r small s hs v.sums v.order,
          moved.returns,
          done.returns,
        )
        (settle_lem s done.ranking done.sums);
  valid = settled-IsValid s done.ranking done.sums done.order;
  new_freq = done.same_freq ∙ moved.same_freq;
}
  where
    r : IsRanking ppm
    r = v.ranking

    hs : IsSym s
    hs = omega arith

    moved :
        Ranked
          (seen ppm s).freq
          s
          (n + 1)
          (if ltb 1 s then sym_swap (seen ppm s) s (s - 1) else ok (seen ppm s))
    moved =
        move_up-Ranked s hs hi (omega arith) small (seen-IsRanking r small s hs v.sums v.order)
          (seen-Sums r small s hs v.sums v.order) (seen-IsSortedBut r small s hs v.sums v.order hi)

    done : Ranked moved.out.freq 0 (n + 1) (inc_loop s moved.out)
    done = inc_loop-Ranked s (omega arith) small moved.ranking moved.sums moved.order
