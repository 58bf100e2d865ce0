-- ===== src/Ppm0.antt =====
-- src/dach/dach_ppm0.c: the adaptive order-0 model.
--
-- Symbols 1 .. 257 rank the characters 0 .. 256 by frequency. The tables `freq` and `cumfreq` are
-- indexed by character, `sym_to_chr` and `chr_to_sym` are the ranking and its inverse.
pub mod Inv
pub mod Api
pub mod Swap
pub mod Find
pub mod Init
pub mod Update
pub mod Runs
pub mod Ending
use dach.Base.{
  ℕ, zero, suc, ◌+◌, ◌-◌, ◌^◌, ◌%◌, Array, zeroed, load, store, Result, ok, err, assert, no_fuel,
  ◌>>=◌, ◌>>◌, ltb, leb, ◌==◌, not, ◌&&◌, if◌then◌else◌, u32, u64, Bool, true, false,
}

abbrev pub chr_count : ℕ
chr_count = 257

abbrev pub sym_count : ℕ
sym_count = 258

-- `symcount + ex`, the entries that each table is allocated with.
abbrev pub table_size : ℕ
table_size = 256 + 32

pub record Ppm0 : Type 0 where
  pub cumfreq : Array
  pub scale : ℕ
  pub sym : ℕ
  pub sym_prev : ℕ
  pub chr_to_sym : Array
  pub sym_to_chr : Array
  pub freq : Array

-- `dach_sym_to_chr`, and the exported `sym_to_chr`.
unfoldable pub sym_to_chr : Ppm0 → ℕ → Result ℕ
sym_to_chr ppm sym = do assert (leb sym sym_count); load table_size ppm.sym_to_chr sym

unfoldable pub chr_to_sym : Ppm0 → ℕ → Result ℕ
chr_to_sym ppm chr = do assert (leb chr 255); load table_size ppm.chr_to_sym chr

unfoldable pub add_sym_chr : Ppm0 → ℕ → ℕ → Result Ppm0
add_sym_chr ppm sym chr = do
  assert (leb chr sym_count)
  assert (ltb sym sym_count)
  to_chr ← store table_size ppm.sym_to_chr sym chr
  to_sym ← store table_size ppm.chr_to_sym chr sym
  ok (record ppm { sym_to_chr = to_chr; chr_to_sym = to_sym })

unfoldable pub get_freq : Ppm0 → ℕ → Result ℕ
get_freq ppm sym = do chr ← load table_size ppm.sym_to_chr sym; load table_size ppm.freq chr

unfoldable pub inc_freq : Ppm0 → ℕ → Result Ppm0
inc_freq ppm sym = do
  chr ← load table_size ppm.sym_to_chr sym
  f ← load table_size ppm.freq chr
  freq ← store table_size ppm.freq chr (u32 (f + 1))
  ok (record ppm { freq = freq })

unfoldable pub inc_cumfreq : Ppm0 → ℕ → Result Ppm0
inc_cumfreq ppm sym = do
  chr ← load table_size ppm.sym_to_chr sym
  cf ← load table_size ppm.cumfreq chr
  cumfreq ← store table_size ppm.cumfreq chr (u64 (cf + 1))
  ok (record ppm { cumfreq = cumfreq })

unfoldable pub set_cumfreq : Ppm0 → ℕ → ℕ → Result Ppm0
set_cumfreq ppm sym cf = do
  assert (ltb sym sym_count)
  chr ← load table_size ppm.sym_to_chr sym
  cumfreq ← store table_size ppm.cumfreq chr cf
  ok (record ppm { cumfreq = cumfreq })

-- `dach_ppm0_cumfreq`, and the exported `cumfreq`.
unfoldable pub cumfreq : Ppm0 → ℕ → Result ℕ
cumfreq ppm sym = do
  assert (leb sym sym_count)
  if sym == sym_count
      then ok 0
      else (do chr ← load table_size ppm.sym_to_chr sym; load table_size ppm.cumfreq chr)

-- The loop of `dach_ppm0_new_` with `sym` from the given number down to 1, and its running sum.
unfoldable pub new_loop : ℕ → ℕ → Ppm0 → Result (ℕ × Ppm0)
new_loop zero sum ppm = ok (sum, ppm)
new_loop (suc chr) sum ppm = do
  ppm ← add_sym_chr ppm (suc chr) chr
  ppm ← inc_freq ppm (suc chr)
  f ← get_freq ppm (suc chr)
  let sum' = u64 (sum + f)
  ppm ← set_cumfreq ppm (suc chr) sum'
  new_loop chr sum' ppm

abbrev pub blank : Ppm0
blank = record {
  cumfreq = zeroed;
  scale = 0;
  sym = 0;
  sym_prev = 0;
  chr_to_sym = zeroed;
  sym_to_chr = zeroed;
  freq = zeroed;
}

unfoldable pub new : Result Ppm0
new = do
  ppm ← add_sym_chr blank 0 sym_count
  (sum, ppm) ← new_loop (sym_count - 1) 0 ppm
  assert (ltb 255 sum)
  let ppm' = record ppm { scale = sum }
  none ← cumfreq ppm' 0
  assert (none == 0)
  all ← cumfreq ppm' 1
  assert (all == sum)
  assert (all == sym_count - 1)
  ok ppm'

-- The search of `dach_ppm0_find_sym` from `sym` on: the first symbol past the last one whose
-- cumulative frequency exceeds `target`.
unfoldable pub find_loop : Ppm0 → ℕ → ℕ → ℕ → Result ℕ
find_loop ppm target zero sym = err no_fuel
find_loop ppm target (suc fuel) sym =
    if ltb sym sym_count
    then (do
      cf ← cumfreq ppm sym
      if ltb target cf then find_loop ppm target fuel (sym + 1) else ok sym)
    else ok sym

-- `sym` starts at 1, so 258 rounds are enough. The store to `ppm->sym` at 0 is followed by the
-- failing assertion.
unfoldable pub find_sym : Ppm0 → ℕ → Result ℕ
find_sym ppm target = do
  past ← find_loop ppm target sym_count 1
  let sym = past - 1
  assert (not (sym == 0))
  ok sym

-- The body of `dach_sym_swap` where `freq1 > freq2`: the two characters change places.
unfoldable pub exchange : Ppm0 → (sym1 sym2 chr1 chr2 : ℕ) → Result Ppm0
exchange ppm sym1 sym2 chr1 chr2 = do
  to_chr ← store table_size ppm.sym_to_chr sym1 chr2
  to_chr ← store table_size to_chr sym2 chr1
  to_sym ← store table_size ppm.chr_to_sym chr1 sym2
  to_sym ← store table_size to_sym chr2 sym1
  cfreq1 ← load table_size ppm.cumfreq chr1
  cfreq2 ← load table_size ppm.cumfreq chr2
  cumfreq ← store table_size ppm.cumfreq chr1 cfreq2
  cumfreq ← store table_size cumfreq chr2 (u64 (cfreq1 + 2 ^ 64 - 1))
  ok (record ppm { sym_to_chr = to_chr; chr_to_sym = to_sym; cumfreq = cumfreq })

-- `dach_sym_swap` up to its recursive call, and whether the characters changed places.
unfoldable pub swap_step : Ppm0 → ℕ → ℕ → Result (Bool × Ppm0)
swap_step ppm sym1 sym2 = do
  chr1 ← sym_to_chr ppm sym1
  chr2 ← sym_to_chr ppm sym2
  freq1 ← load table_size ppm.freq chr1
  freq2 ← load table_size ppm.freq chr2
  if ltb freq2 freq1
      then (do ppm' ← exchange ppm sym1 sym2 chr1 chr2; ok (true, ppm'))
      else ok (false, ppm)

-- `dach_sym_swap`, without the result that nobody uses. `sym2` falls by one with each call.
unfoldable pub sym_swap : Ppm0 → ℕ → ℕ → Result Ppm0
sym_swap ppm sym1 zero = do (swapped, ppm') ← swap_step ppm sym1 0; ok ppm'
sym_swap ppm sym1 (suc n) = do
  (swapped, ppm') ← swap_step ppm sym1 (suc n)
  if swapped && ltb 1 (suc n) then sym_swap ppm' (suc n) n else ok ppm'

-- The last loop of `dach_ppm0_update`, with `sym_` from the given number down to 1.
unfoldable pub inc_loop : ℕ → Ppm0 → Result Ppm0
inc_loop zero ppm = ok ppm
inc_loop (suc n) ppm = do ppm ← inc_cumfreq ppm (suc n); inc_loop n ppm

-- The end of `dach_ppm0_update`: the new scale, which is checked.
unfoldable pub settle : Ppm0 → ℕ → Result (ℕ × Ppm0)
settle ppm sym = do
  sum ← cumfreq ppm 1
  let ppm' = record ppm { sym_prev = sym; scale = sum }
  none ← cumfreq ppm' 0
  assert (none == 0)
  all ← cumfreq ppm' 1
  assert (sum == all)
  ok (sum, ppm')

-- `dach_ppm0_update`, and the exported `update`: the new scale and the model.
unfoldable pub update : Ppm0 → ℕ → Result (ℕ × Ppm0)
unfolding settle
update ppm sym = do
  assert (ltb 0 sym && ltb sym sym_count)
  ppm ← inc_freq ppm sym
  ppm ← if ltb 1 sym then sym_swap ppm sym (sym - 1) else ok ppm
  ppm ← inc_loop sym ppm
  settle ppm sym
