-- ===== src/Ppm0/Init.antt =====
-- `dach_ppm0_new_` returns a valid model in which every character counts once.
use dach.Base.{ℕ, zero, suc, ◌+◌, ◌-◌, ◌≤◌, ◌<◌, ◌≡◌, refl, arith, ok, Result, put, zeroed}
use dach.Ppm0.{Ppm0, blank, new, new_loop, add_sym_chr, inc_freq, get_freq, set_cumfreq, cumfreq}
use dach.Ppm0.Inv.{IsValid}

-- The tables once the symbols above `k` are entered.
record Entered (k : ℕ) (ppm : Ppm0) : Type 0 where
  to_chr : (s : ℕ) → k < s → s ≤ 257 → ppm.sym_to_chr s ≡ s - 1
  to_sym : (c : ℕ) → k ≤ c → c ≤ 256 → ppm.chr_to_sym c ≡ c + 1
  once : (c : ℕ) → k ≤ c → c ≤ 256 → ppm.freq c ≡ 1
  unseen : (c : ℕ) → c < k → ppm.freq c ≡ 0
  sums : (c : ℕ) → k ≤ c → c ≤ 256 → ppm.cumfreq c ≡ 257 - c
  spare : ppm.sym_to_chr 0 ≡ 258
  spare_cumfreq : ppm.cumfreq 258 ≡ 0

abbrev entered : ℕ → Ppm0 → Ppm0
entered k ppm = record ppm {
  sym_to_chr = put ppm.sym_to_chr (suc k) k;
  chr_to_sym = put ppm.chr_to_sym k (suc k);
  freq = put ppm.freq k 1;
  cumfreq = put ppm.cumfreq k (257 - k);
}

entered-Entered : (k : ℕ) {ppm : Ppm0} → Entered (suc k) ppm → Entered k (entered k ppm)
entered-Entered k e = record {
  to_chr = λ s lo hi. ground (arith, e.to_chr s);
  to_sym = λ c lo hi. ground (arith, e.to_sym c);
  once = λ c lo hi. ground (arith, e.once c);
  unseen = λ c lo. ground (arith, e.unseen c);
  sums = λ c lo hi. ground (arith, e.sums c);
  spare = ground (arith, e.spare);
  spare_cumfreq = ground (arith, e.spare_cumfreq);
}

new_loop-suc :
    (k : ℕ) {ppm : Ppm0}
    → k ≤ 256
    → Entered (suc k) ppm
    → new_loop (suc k) (256 - k) ppm ≡ new_loop k (257 - k) (entered k ppm)
unfolding new_loop add_sym_chr inc_freq get_freq set_cumfreq
new_loop-suc k inside e = ground (arith, e.unseen k)

record Filled (result : Result (ℕ × Ppm0)) : Type 0 where
  out : Ppm0
  returns : result ≡ ok (257, out)
  entries : Entered 0 out

new_loop-Filled : (k : ℕ) {ppm : Ppm0} → k ≤ 257 → Entered k ppm → Filled (new_loop k (257 - k) ppm)
new_loop-Filled zero {ppm} inside e = record {
  out = ppm;
  returns = unfold new_loop in refl;
  entries = e;
}
new_loop-Filled (suc k) {ppm} inside e =
    let d : 257 - suc k ≡ 256 - k = omega arith in
    rw (d, new_loop-suc k (omega arith) e) (new_loop-Filled k (omega arith) (entered-Entered k e))

abbrev start : Ppm0
start = record blank { sym_to_chr = put zeroed 0 258; chr_to_sym = put zeroed 258 0 }

start-Entered : Entered 257 start
start-Entered = record {
  to_chr = λ s lo hi. absurd (omega arith);
  to_sym = λ c lo hi. absurd (omega arith);
  once = λ c lo hi. absurd (omega arith);
  unseen = λ c lo. refl;
  sums = λ c lo hi. absurd (omega arith);
  spare = refl;
  spare_cumfreq = refl;
}

Entered-IsValid : {ppm : Ppm0} → Entered 0 ppm → IsValid 257 (record ppm { scale = 257 })
Entered-IsValid {ppm} e = record {
  ranking = record {
    chr_le = λ s h. ground (arith, e.to_chr s);
    sym_of_chr = λ s h. ground (arith, e.to_chr s, e.to_sym (s - 1));
    sym_in = λ c h. ground (arith, e.to_sym c);
    chr_of_sym = λ c h. ground (arith, e.to_sym c, e.to_chr (c + 1));
    last = e.to_chr 257 (omega arith) (omega arith);
    spare = e.spare;
    spare_cumfreq = e.spare_cumfreq;
  };
  sums = record {
    step = λ s h.
        ground (arith, e.to_chr s, e.to_chr (s + 1), e.once (s - 1), e.sums (s - 1), e.sums s);
    top = ground (arith, e.to_chr 1, e.sums 0);
  };
  order = record {
    positive = λ t h. ground (arith, e.to_chr t, e.once (t - 1));
    sorted = λ t h le. ground (arith, e.to_chr t, e.to_chr (t + 1), e.once (t - 1), e.once t);
  };
  total = refl;
}

-- `dach_ppm0_new_` returns a valid model of 257 occurrences, in which each of the characters
-- 0 .. 256 counts once.
pub new-IsValid :
    (ppm : Ppm0) × (new ≡ ok ppm) × IsValid 257 ppm × ((c : ℕ) → c ≤ 256 → ppm.freq c ≡ 1)
new-IsValid = build (new_loop-Filled 257 (omega arith) start-Entered)
  where
    build :
        Filled (new_loop 257 0 start)
        → (ppm : Ppm0) × (new ≡ ok ppm) × IsValid 257 ppm × ((c : ℕ) → c ≤ 256 → ppm.freq c ≡ 1)
    build f = (
      record f.out { scale = 257 },
      unfold new add_sym_chr cumfreq in
          rw f.returns (
            ground (
              arith,
              f.entries.spare,
              f.entries.spare_cumfreq,
              f.entries.to_chr 1,
              f.entries.sums 0,
            )),
      Entered-IsValid f.entries,
      λ c h. f.entries.once c (omega arith) h,
    )
