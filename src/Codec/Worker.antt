-- ===== src/Codec/Worker.antt =====
-- src/dach/dach.c: the functions that encode the blocks of a stream, `ap_non_thread_encode_stream` and
-- `ap_thread_encode_stream`. The coder of a block holds the block that its characters come from, and writes to it.
use dach.Base.{
  ℕ, zero, suc, ◌+◌, Array, Result, ok, err, overrun, no_fuel, assert, ◌>>=◌, ◌>>◌, ◌==◌,
  if◌then◌else◌, u8, u32, some, none,
}
use dach.Block.{Block, block_getc, get_length}
use dach.Stream.{Stream, entry, store_obj, blocks as blocks_left, new_block, free_block}
use dach.Ppm0.{new}
use dach.Ppm0.Api.{ppm0_api}
use dach.Ar64.State.{Io, files, blocks}
use dach.Ar64.Coder.{new_block_arcoder, encode, stop_encoder}
use dach.Codec.{Coder}

module _ (self : ℕ) where
  -- `b_ops->get_c(blk)`, on the block that the coder holds too.
  unfoldable pub get_c : Io → Result (ℕ × Io)
  get_c (files input output) = err overrun
  get_c (blocks b) = do (c, b) ← block_getc self b; ok (c, blocks b)

  -- The inner loop, with `pos` from `bsize` less the given number on.
  unfoldable pub encode_chars : ℕ → Coder → Result Coder
  encode_chars zero arc = ok arc
  encode_chars (suc n) arc = do
    (c, io) ← get_c arc.io
    arc ← encode ppm0_api self (record arc { io = io }) (u8 c)
    encode_chars n arc

  -- A block up to the call of `dach_stop_encoder`: its model, its coder and its characters.
  unfoldable pub encode_block : Block → Result Coder
  encode_block blk = do
    model ← new
    arc ← new_block_arcoder ppm0_api self model blk
    bsize ← get_length self blk
    encode_chars (u32 bsize) arc

  -- The block as the coder leaves it.
  abbrev pub block_of : Io → Block → Block
  block_of (files input output) blk = blk
  block_of (blocks b) blk = b

  -- `ap_non_thread_encode_stream`, with `loopy`. Each round takes a block.
  unfoldable pub non_thread_loop : ℕ → ℕ → Stream → Result Stream
  non_thread_loop zero loopy s = err no_fuel
  non_thread_loop (suc fuel) loopy s = do
    left ← blocks_left s
    if left == 0 then ok s else (do
      (blk, s) ← new_block s
      elim blk [
        | none ↦ non_thread_loop fuel (loopy + 1) s
        | some i ↦ (do
          d ← entry s.dblock_array i
          arc ← encode_block d.obj
          assert (loopy + 1 == 1)
          arc ← stop_encoder ppm0_api self arc
          non_thread_loop fuel (loopy + 1)
              (record s { dblock_array = store_obj s.dblock_array i d (block_of arc.io d.obj) }))
      ])

  unfoldable pub non_thread_encode_stream : Stream → Result Stream
  non_thread_encode_stream s = non_thread_loop (s.block_count + 1) 0 s

  -- `ap_thread_encode_stream`. `buf` is what the buffer of the header held.
  unfoldable pub thread_loop : Array → ℕ → Stream → Result Stream
  thread_loop buf zero s = err no_fuel
  thread_loop buf (suc fuel) s = do
    left ← blocks_left s
    if left == 0 then ok s else (do
      (blk, s) ← new_block s
      elim blk [
        | none ↦ thread_loop buf fuel s
        | some i ↦ (do
          d ← entry s.dblock_array i
          arc ← encode_block d.obj
          arc ← stop_encoder ppm0_api self arc
          let s : Stream = record s {
            dblock_array = store_obj s.dblock_array i d (block_of arc.io d.obj);
          }
          s ← free_block self buf s i
          thread_loop buf fuel s)
      ])

  unfoldable pub thread_encode_stream : Array → Stream → Result Stream
  thread_encode_stream buf s = thread_loop buf (s.block_count + 1) s
