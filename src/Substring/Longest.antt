-- ===== src/Substring/Longest.antt =====
-- `dach_find_prev_substr` finds the first of the longest matches.
use dach.Base.{ℕ, ◌+◌, ◌≤◌, ◌<◌, ◌≡◌, Array, Result, ok, ltb, if◌then◌else◌, ◌⊎◌}
use dach.Substring.{Substr}

module _ (slab : Array) (size pos : ℕ) where
  -- The `n` bytes from `start` on end before `pos`, and they are those from `pos` on.
  pub record IsMatch (start n : ℕ) : Type 0 where
    pub before : start + n ≤ pos
    pub inside : pos + n ≤ size
    pub same : (i : ℕ) → i < n → slab (start + i) ≡ slab (pos + i)

  -- `result` is the length of the longest match from `start` on.
  record Longest (start : ℕ) (result : Result ℕ) : Type 0 where
    n : ℕ
    returns : result ≡ ok n
    is_match : IsMatch start n
    longest : (m : ℕ) → IsMatch start m → m ≤ n

  -- The best of the matches from `from` on and before `to`, the first one of its length.
  pub record IsBest (from to : ℕ) (sub : Substr) : Type 0 where
    pub found :
        ((sub.len ≡ 0) × (sub.pos ≡ 0))
        ⊎ ((from ≤ sub.pos) × (sub.pos < to) × IsMatch sub.pos sub.len)
    pub longest : (t m : ℕ) → from ≤ t → t < to → IsMatch t m → m ≤ sub.len
    pub first : (t m : ℕ) → from ≤ t → t < sub.pos → IsMatch t m → m < sub.len

  -- The better of a match and the best so far.
  abbrev better : Substr → ℕ → ℕ → Substr
  better sub slide n = if ltb sub.len n then record { pos = slide; len = n } else sub

  -- `result` is the best match between `from` and the position.
  pub record Best (from : ℕ) (result : Result Substr) : Type 0 where
    pub sub : Substr
    pub returns : result ≡ ok sub
    pub best : IsBest from pos sub
