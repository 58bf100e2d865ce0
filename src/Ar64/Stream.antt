-- ===== src/Ar64/Stream.antt =====
-- Bits in and out of the coder, through the word in `io_buffer`.
use Prim.Native.Nat.{bit_and}
use dach.Base.{
  ℕ, zero, suc, ◌+◌, ◌-◌, ◌*◌, ◌/◌, ◌^◌, Result, ok, assert, ◌>>=◌, ◌>>◌, ◌==◌, ◌||◌, not,
  if◌then◌else◌, u32, u64,
}
use dach.Ar64.State.{Arc, write_word, read_word}

module _ (self : ℕ) {M : Type 0} where
  -- A full word goes out before the next bit comes in.
  unfoldable pub flush_word : Arc M → Result (Arc M)
  flush_word arc =
      if arc.io_buffer_full == 0
      then (do
        io ← write_word self arc.io arc.io_buffer
        ok (record arc { io_buffer_full = arc.io_buffer_size; io = io; io_buffer = 0 }))
      else ok arc

  -- `dach_bitout`
  unfoldable pub bitout : Arc M → ℕ → Result (Arc M)
  unfolding flush_word
  bitout arc bit = do
    arc ← flush_word arc
    ok (record arc {
      total_bits_out = u64 (arc.total_bits_out + 1);
      io_buffer = u32 (u32 (arc.io_buffer * 2) + bit);
      io_buffer_full = arc.io_buffer_full - 1;
    })

  -- The loop of `dach_write_stream`, with `underflow` from the given number down to 0.
  unfoldable pub flush_underflow : ℕ → Arc M → ℕ → Result (Arc M)
  flush_underflow zero arc bit = ok arc
  flush_underflow (suc n) arc bit = do
    arc ← bitout arc bit
    flush_underflow n (record arc { underflow = n }) bit

  -- `dach_write_stream`
  unfoldable pub write_stream : Arc M → ℕ → Result (Arc M)
  write_stream arc bit = do
    assert ((bit == 1) || (bit == 0))
    arc ← bitout arc bit
    flush_underflow arc.underflow arc (1 - bit)

  -- An empty word is filled before the next bit is taken.
  unfoldable pub fill_word : Arc M → Result (Arc M)
  fill_word arc =
      if arc.io_buffer_full == 0
      then (do
        assert (not arc.eof_in)
        (word, ended, io) ← read_word self arc.io
        ok (record arc {
          io_buffer_full = arc.io_buffer_size;
          io_buffer = word;
          io = io;
          eof_in = arc.eof_in || ended;
        }))
      else ok arc

  -- `dach_bitin`
  unfoldable pub bitin : Arc M → Result (ℕ × Arc M)
  unfolding fill_word
  bitin arc = do
    arc ← fill_word arc
    let t = bit_and arc.io_buffer 0x80000000 / 2 ^ 31
    assert ((t == 0) || (t == 1))
    ok (
      t,
      record arc {
        total_bits_in = u64 (arc.total_bits_in + 1);
        io_buffer = u32 (arc.io_buffer * 2);
        io_buffer_full = arc.io_buffer_full - 1;
      },
    )
