-- ===== src/Ppm0/Ending.antt =====
-- The operations of the model end on any tables, valid or not.
use dach.Base.{ℕ, zero, suc, ◌+◌, ◌≤◌, ◌<◌, arith, ltb, ltb→lt, ◌&&◌}
use dach.Base.Ends.{Ends, Any, if-Ends, Any-bind, Any-if, Any-ok, ending}
use dach.Ppm0.{
  Ppm0, sym_count, sym_to_chr, chr_to_sym, cumfreq, add_sym_chr, get_freq, inc_freq, inc_cumfreq,
  set_cumfreq, find_loop, find_sym, exchange, swap_step, sym_swap, inc_loop, settle, update,
  new_loop, new,
}

pub sym_to_chr-Ends : (ppm : Ppm0) (s : ℕ) → Ends Any (sym_to_chr ppm s)
unfolding sym_to_chr
sym_to_chr-Ends ppm s = search ending

pub chr_to_sym-Ends : (ppm : Ppm0) (c : ℕ) → Ends Any (chr_to_sym ppm c)
unfolding chr_to_sym
chr_to_sym-Ends ppm c = search ending

pub cumfreq-Ends : (ppm : Ppm0) (s : ℕ) → Ends Any (cumfreq ppm s)
unfolding cumfreq
cumfreq-Ends ppm s = search ending

find_loop-Ends :
    (ppm : Ppm0) (target fuel s : ℕ)
    → sym_count < fuel + s
    → s ≤ sym_count
    → Ends Any (find_loop ppm target fuel s)
unfolding find_loop
find_loop-Ends ppm target zero s h le = absurd (omega arith)
find_loop-Ends ppm target (suc fuel) s h le =
    if-Ends _ (ltb s sym_count) _ _
      (λ small. Any-bind _ _ (cumfreq-Ends ppm s) (λ cf.
        Any-if (ltb target cf) _ _
          (find_loop-Ends ppm target fuel (s + 1) (omega arith)
            (omega (arith, ltb→lt s sym_count small)))
          (Any-ok s)))
      (λ _. search ending)

-- The search of the model takes at most one round for each symbol.
pub find_sym-Ends : (ppm : Ppm0) (target : ℕ) → Ends Any (find_sym ppm target)
unfolding find_sym
find_sym-Ends ppm target =
    Any-bind _ _ (find_loop-Ends ppm target sym_count 1 (omega arith) (omega arith))
      (λ past. search ending)

exchange-Ends : (ppm : Ppm0) (sym1 sym2 chr1 chr2 : ℕ) → Ends Any (exchange ppm sym1 sym2 chr1 chr2)
unfolding exchange
exchange-Ends ppm sym1 sym2 chr1 chr2 = search ending depth 12

swap_step-Ends : (ppm : Ppm0) (sym1 sym2 : ℕ) → Ends Any (swap_step ppm sym1 sym2)
unfolding swap_step
swap_step-Ends ppm sym1 sym2 = search (ending, exchange-Ends, sym_to_chr-Ends) depth 12

sym_swap-Ends : (ppm : Ppm0) (sym1 sym2 : ℕ) → Ends Any (sym_swap ppm sym1 sym2)
unfolding sym_swap
sym_swap-Ends ppm sym1 zero = search (ending, swap_step-Ends)
sym_swap-Ends ppm sym1 (suc n) = Any-bind _ _ (swap_step-Ends ppm sym1 (suc n)) (λ (swapped, ppm').
    Any-if (swapped && ltb 1 (suc n)) _ _ (sym_swap-Ends ppm' (suc n) n) (Any-ok ppm'))

inc_freq-Ends : (ppm : Ppm0) (s : ℕ) → Ends Any (inc_freq ppm s)
unfolding inc_freq
inc_freq-Ends ppm s = search ending

inc_cumfreq-Ends : (ppm : Ppm0) (s : ℕ) → Ends Any (inc_cumfreq ppm s)
unfolding inc_cumfreq
inc_cumfreq-Ends ppm s = search ending

inc_loop-Ends : (n : ℕ) (ppm : Ppm0) → Ends Any (inc_loop n ppm)
unfolding inc_loop
inc_loop-Ends zero ppm = search ending
inc_loop-Ends (suc n) ppm = search (ending, inc_cumfreq-Ends, inc_loop-Ends n)

settle-Ends : (ppm : Ppm0) (s : ℕ) → Ends Any (settle ppm s)
unfolding settle
settle-Ends ppm s = search (ending, cumfreq-Ends) depth 12

pub update-Ends : (ppm : Ppm0) (s : ℕ) → Ends Any (update ppm s)
unfolding update
update-Ends ppm s =
    search (ending, inc_freq-Ends, sym_swap-Ends, inc_loop-Ends, settle-Ends) depth 12

add_sym_chr-Ends : (ppm : Ppm0) (s chr : ℕ) → Ends Any (add_sym_chr ppm s chr)
unfolding add_sym_chr
add_sym_chr-Ends ppm s chr = search ending depth 12

get_freq-Ends : (ppm : Ppm0) (s : ℕ) → Ends Any (get_freq ppm s)
unfolding get_freq
get_freq-Ends ppm s = search ending

set_cumfreq-Ends : (ppm : Ppm0) (s cf : ℕ) → Ends Any (set_cumfreq ppm s cf)
unfolding set_cumfreq
set_cumfreq-Ends ppm s cf = search ending depth 12

new_loop-Ends : (n sum : ℕ) (ppm : Ppm0) → Ends Any (new_loop n sum ppm)
unfolding new_loop
new_loop-Ends zero sum ppm = search ending
new_loop-Ends (suc n) sum ppm =
    search
      (ending, add_sym_chr-Ends, inc_freq-Ends, get_freq-Ends, set_cumfreq-Ends, new_loop-Ends n)
      depth 12

pub new-Ends : Ends Any new
unfolding new
new-Ends = search (ending, add_sym_chr-Ends, new_loop-Ends, cumfreq-Ends) depth 12
