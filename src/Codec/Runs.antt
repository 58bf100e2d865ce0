-- ===== src/Codec/Runs.antt =====
-- Runs of the codec.
use dach.Base.{ℕ, ◌≡◌, refl, Result, ok, ◌>>=◌, List, [], ◌∷◌}
use dach.Codec.{encode_file, decode_file, encode_bytes, decode_loop}
use dach.Ppm0.{new, update, chr_to_sym, sym_to_chr, cumfreq, find_sym, find_loop}
use dach.Ppm0.{new_loop, add_sym_chr, inc_freq, get_freq, set_cumfreq, sym_swap, swap_step}
use dach.Ppm0.{exchange, inc_loop, inc_cumfreq}
use dach.Ar64.State.{write_word, read_word}
use dach.Ar64.Stream.{bitout, flush_underflow, write_stream, bitin}
use dach.Ar64.Coder.{new_arcoder, encode_step, encode_loop, encode, take_bit, decode, fill_up}
use dach.Ar64.Coder.{decode_loop as shift_loop, stop_encoder, start_decoder}

abbrev text : List ℕ
text = b'b' ∷ b'a' ∷ b'n' ∷ b'a' ∷ b'n' ∷ b'a' ∷ []

banana : Result (List ℕ)
banana = encode_file 0 text >>= decode_file 0

banana_lem : banana ≡ ok text
unfolding banana encode_file decode_file encode_bytes decode_loop new update chr_to_sym sym_to_chr
    cumfreq find_sym find_loop new_loop add_sym_chr inc_freq get_freq set_cumfreq sym_swap swap_step
    exchange inc_loop inc_cumfreq write_word read_word bitout flush_underflow write_stream bitin
    new_arcoder encode_step encode_loop encode take_bit decode fill_up shift_loop stop_encoder
    start_decoder
banana_lem = refl
