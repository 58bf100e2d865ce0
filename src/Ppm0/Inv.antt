-- ===== src/Ppm0/Inv.antt =====
-- The invariant of the model: a ranking by frequency, with running sums from the last rank up.
use dach.Base.{ℕ, zero, suc, ◌+◌, ◌≤◌, ◌≡◌, ◌≢◌, arith, leb, ◌==◌, if◌then◌else◌}
use dach.Ppm0.{Ppm0, sym_count}

abbrev pub IsSym : ℕ → Type 0
IsSym s = (1 ≤ s) × (s ≤ 257)

-- The frequency of a symbol, and its cumulative frequency, as the code reads them.
abbrev pub freq_of : Ppm0 → ℕ → ℕ
freq_of ppm s = ppm.freq (ppm.sym_to_chr s)

abbrev pub cumfreq_of : Ppm0 → ℕ → ℕ
cumfreq_of ppm s = if s == sym_count then 0 else ppm.cumfreq (ppm.sym_to_chr s)

-- `sym_to_chr` and `chr_to_sym` are inverse to each other between the symbols 1 .. 257 and the
-- characters 0 .. 256. The last symbol stays with character 256, which no byte is, and symbol 0
-- stands for a character that has no frequency.
pub record IsRanking (ppm : Ppm0) : Type 0 where
  pub chr_le : (s : ℕ) → IsSym s → ppm.sym_to_chr s ≤ 256
  pub sym_of_chr : (s : ℕ) → IsSym s → ppm.chr_to_sym (ppm.sym_to_chr s) ≡ s
  pub sym_in : (c : ℕ) → c ≤ 256 → IsSym (ppm.chr_to_sym c)
  pub chr_of_sym : (c : ℕ) → c ≤ 256 → ppm.sym_to_chr (ppm.chr_to_sym c) ≡ c
  pub last : ppm.sym_to_chr 257 ≡ 256
  pub spare : ppm.sym_to_chr 0 ≡ 258
  pub spare_cumfreq : ppm.cumfreq 258 ≡ 0

-- 1 for the symbols that the last loop of `update` still has to count.
abbrev pub owed : ℕ → ℕ → ℕ
owed k s = if leb s k then 1 else 0

-- Once the symbols up to `k` are counted once more, each cumulative frequency is the sum of the
-- frequencies from its symbol on, and the first one is `n`.
pub record Sums (ppm : Ppm0) (k n : ℕ) : Type 0 where
  pub step :
      (s : ℕ)
      → IsSym s
      → cumfreq_of ppm s + owed k s ≡ freq_of ppm s + (cumfreq_of ppm (s + 1) + owed k (s + 1))
  pub top : cumfreq_of ppm 1 + owed k 1 ≡ n

-- Symbols in order of falling frequency, each seen at least once; a symbol `s` may be ahead of
-- its predecessor by one, if it is ahead of its successor.
pub record IsSortedBut (ppm : Ppm0) (s : ℕ) : Type 0 where
  pub positive : (t : ℕ) → IsSym t → 1 ≤ freq_of ppm t
  pub sorted : (t : ℕ) → IsSym t → t ≤ 256 → t + 1 ≢ s → freq_of ppm (t + 1) ≤ freq_of ppm t
  pub before : (t : ℕ) → IsSym t → t + 1 ≡ s → freq_of ppm s ≤ freq_of ppm t + 1
  pub after : freq_of ppm (s + 1) + 1 ≤ freq_of ppm s

pub record IsSorted (ppm : Ppm0) : Type 0 where
  pub positive : (t : ℕ) → IsSym t → 1 ≤ freq_of ppm t
  pub sorted : (t : ℕ) → IsSym t → t ≤ 256 → freq_of ppm (t + 1) ≤ freq_of ppm t

-- A model that counts `n` occurrences in all.
pub record IsValid (n : ℕ) (ppm : Ppm0) : Type 0 where
  pub ranking : IsRanking ppm
  pub sums : Sums ppm 0 n
  pub order : IsSorted ppm
  pub total : ppm.scale ≡ n

-- Distinct symbols have distinct characters.
pub sym_to_chr-injective :
    {ppm : Ppm0}
    → IsRanking ppm
    → (s t : ℕ) → IsSym s
    → IsSym t
    → ppm.sym_to_chr s ≡ ppm.sym_to_chr t
    → s ≡ t
sym_to_chr-injective {ppm} r s t hs ht e = ground (arith, r.sym_of_chr s hs, r.sym_of_chr t ht)

-- No cumulative frequency exceeds the first, by induction on the rank.
pub cumfreq-le :
    {ppm : Ppm0} {k n : ℕ}
    → Sums ppm k n
    → (s : ℕ) → s ≤ 257
    → cumfreq_of ppm (s + 1) + owed k (s + 1) ≤ n
cumfreq-le u zero h = ground (arith, u.top)
cumfreq-le u (suc s) h = ground (arith, u.step (suc s), cumfreq-le u s (omega arith))
