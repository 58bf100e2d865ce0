-- ===== src/Ar64/State.antt =====
-- `DACH_ARC`, and the two kinds of input and output that it may have.
use dach.Base.{
  ℕ, ◌+◌, ◌*◌, ◌/◌, ◌%◌, Bool, false, List, [], ◌∷◌, ◌++◌, Result, ok, ◌>>=◌, none, some, ltb,
  length, take, drop,
}
use dach.Block.{Block, block_read, block_write}

-- `files` has what `in` still holds and what `out` was given; `blocks` is the case `out == NULL`.
pub data Io : Type 0 where
  files : List ℕ → List ℕ → Io
  blocks : Block → Io

pub record Arc (M : Type 0) : Type 0 where
  pub model : M
  pub io : Io
  pub eof_in : Bool
  pub stop : Bool
  pub underflow : ℕ
  pub low : ℕ
  pub high : ℕ
  pub range : ℕ
  pub total_syms : ℕ
  pub total_bits_in : ℕ
  pub total_bits_out : ℕ
  pub io_buffer : ℕ
  pub io_buffer_full : ℕ
  pub io_buffer_size : ℕ
  pub esym : ℕ
  pub blocksize : ℕ
  pub scale : ℕ

-- The bytes of a word in memory, lowest first, and the word of as many bytes as were read into
-- a word that held 0.
abbrev pub word_bytes : ℕ → List ℕ
word_bytes w = w % 256 ∷ w / 256 % 256 ∷ w / 65536 % 256 ∷ w / 16777216 % 256 ∷ []

abbrev pub bytes_word : List ℕ → ℕ
bytes_word [] = 0
bytes_word (b ∷ bs) = b + 256 * bytes_word bs

-- The calling thread, for the blocks.
module _ (self : ℕ) where
  -- `fwrite(&arc->io_buffer, 1, 4, arc->out)`, or the write to the block.
  unfoldable pub write_word : Io → ℕ → Result Io
  write_word (files input output) w = ok (files input (output ++ word_bytes w))
  write_word (blocks b) w = do b' ← block_write self b (word_bytes w); ok (blocks b')

  -- The word read, and whether the input ended before its four bytes. Only `feof` of a file
  -- is looked at.
  unfoldable pub read_word : Io → Result (ℕ × Bool × Io)
  read_word (files input output) =
      ok (bytes_word (take 4 input), ltb (length input) 4, files (drop 4 input) output)
  read_word (blocks b) = do
    (got, b') ← block_read self b 4
    let word : ℕ = elim got [ none ↦ 0 | some bytes ↦ bytes_word bytes ]
    ok (word, false, blocks b')
