-- ===== src/Substring.antt =====
-- src/dach/dach_string.c: the longest string before a position that occurs at the position too.
pub mod Longest
use dach.Base.{
  ℕ, zero, suc, ◌+◌, ◌-◌, Array, load, Result, ok, err, no_fuel, ◌>>=◌, ltb, ◌==◌, if◌then◌else◌,
  u32,
}

-- `struct substr`
pub record Substr : Type 0 where
  pub pos : ℕ
  pub len : ℕ

module _ (slab : Array) (size pos : ℕ) where
  -- The inner loop, over `b`, `f` and `n`; its result is `n`.
  unfoldable pub match_loop : ℕ → (b f n : ℕ) → Result ℕ
  match_loop zero b f n = err no_fuel
  match_loop (suc fuel) b f n =
      if ltb b pos
      then (if ltb f size
          then (do
            x ← load size slab b
            y ← load size slab f
            if x == y then match_loop fuel (u32 (b + 1)) (u32 (f + 1)) (u32 (n + 1)) else ok n)
          else ok n)
      else ok n

  -- The outer loop, where `b` is `slide` and `f` is `pos`.
  unfoldable pub slide_loop : ℕ → ℕ → Substr → Result Substr
  slide_loop zero slide sub = err no_fuel
  slide_loop (suc fuel) slide sub =
      if ltb slide pos
      then (do
        n ← match_loop (pos + 1) slide pos 0
        slide_loop fuel (u32 (slide + 1))
            (if ltb sub.len n then record { pos = slide; len = n } else sub))
      else ok sub

  -- Where the search starts.
  abbrev pub search_start : ℕ → ℕ
  search_start dist = if ltb pos dist then 0 else pos - dist

  -- `dach_find_prev_substr`; its result is 0.
  unfoldable pub find_prev_substr : ℕ → Result Substr
  find_prev_substr dist = slide_loop (pos + 1) (search_start dist) (record { pos = 0; len = 0 })
