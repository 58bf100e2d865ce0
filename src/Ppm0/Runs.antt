-- ===== src/Ppm0/Runs.antt =====
-- Runs of the model on small inputs.
use dach.Base.{ℕ, ◌≡◌, refl, Result, ok, ◌>>=◌, List, [], ◌∷◌}
use dach.Ppm0.{Ppm0, new, update, chr_to_sym, sym_to_chr, cumfreq, find_sym, find_loop}
use dach.Ppm0.{new_loop, add_sym_chr, inc_freq, get_freq, set_cumfreq, sym_swap, swap_step}
use dach.Ppm0.{exchange, inc_loop, inc_cumfreq}

-- The character is seen once more.
feed : Ppm0 → ℕ → Result Ppm0
feed ppm chr = do sym ← chr_to_sym ppm chr; (sum, ppm') ← update ppm sym; ok ppm'

three : Result (List ℕ)
three = do
  a ← new
  b ← feed a 2
  c ← feed b 1
  d ← feed c 1
  x ← chr_to_sym d 1
  y ← chr_to_sym d 2
  z ← chr_to_sym d 0
  u ← cumfreq d 1
  v ← cumfreq d 2
  w ← cumfreq d 3
  s ← find_sym d 255
  t ← find_sym d 259
  ok (x ∷ y ∷ z ∷ u ∷ v ∷ w ∷ s ∷ t ∷ [])

three_lem : three ≡ ok (1 ∷ 2 ∷ 3 ∷ 260 ∷ 257 ∷ 255 ∷ 2 ∷ 1 ∷ [])
unfolding three feed new update chr_to_sym cumfreq find_sym find_loop new_loop add_sym_chr inc_freq
    get_freq set_cumfreq sym_swap swap_step exchange inc_loop inc_cumfreq sym_to_chr
three_lem = refl
