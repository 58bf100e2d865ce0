-- ===== src/Stream/Pipe.antt =====
-- src/dach/dach_stream.c: operations, and the pipe that runs them over the blocks of a stream.
use dach.Base.{
  ℕ, zero, suc, ◌+◌, Result, ok, err, overrun, no_fuel, assert, ◌>>=◌, ◌>>◌, ltb, leb, ◌==◌, u32,
  List, [], ◌∷◌, ◌++◌, Option, some, none, length,
}
use dach.Block.{Block, block_read, block_write, block_seek, block_tofile, get_length}
use dach.Stream.{Stream, entry, store_obj, blocks, new_block, new_write_block}

-- `dach_operation`: the callback works on the two blocks that the operation points to.
abbrev pub Callback : Type 0
Callback = Block → Block → Result (Block × Block)

-- `dach_pipe_obj`; `oper_array` has room for `max_operations`.
pub record Pipe : Type 0 where
  pub source : Stream
  pub oper_array : List Callback

abbrev pub max_operations : ℕ
max_operations = 16

-- `dach_pipe_new`
unfoldable pub pipe_new : Stream → Callback → Pipe
pipe_new ds dop = record { source = ds; oper_array = dop ∷ [] }

-- `dach_pipe_add`; its result is always -1.
unfoldable pub pipe_add : Pipe → Callback → Result Pipe
pipe_add pyp dop = do
  assert (ltb (length pyp.oper_array) max_operations)
  let added : Pipe = record pyp { oper_array = pyp.oper_array ++ (dop ∷ []) }
  assert (leb (length added.oper_array) max_operations)
  ok added

-- `buf_size` of the tests
abbrev pub buf_size : ℕ
buf_size = 4096

module _ (self : ℕ) where
  -- `dach_operation_read` and `dach_operation_write`, on the block that the operation points to.
  unfoldable pub operation_read : Block → ℕ → Result (Option (List ℕ) × Block)
  operation_read in_blk count = block_read self in_blk count

  unfoldable pub operation_write : Block → List ℕ → Result Block
  operation_write out_blk buf = do assert (ltb 0 (length buf)); block_write self out_blk buf

  -- The loop of `dach_thread_pipe`.
  unfoldable pub thread_pipe : Callback → ℕ → Stream → Result Stream
  thread_pipe callback zero s = ok s
  thread_pipe callback (suc n) s = do
    (in_blk, s) ← new_block s
    elim in_blk [
      | none ↦ err overrun
      | some i ↦ (do
        o ← new_write_block self s i
        source ← entry s.dblock_array i
        target ← entry s.dblock_array_out o
        (source', target') ← callback source.obj target.obj
        thread_pipe callback n (record s {
          dblock_array = store_obj s.dblock_array i source source';
          dblock_array_out = store_obj s.dblock_array_out o target target';
        }))
    ]

  -- The loop of `dach_pipe_start`, over the operations.
  unfoldable pub start_loop : List Callback → Stream → Result Stream
  start_loop [] s = ok s
  start_loop (op ∷ ops) s = do n ← blocks s; s ← thread_pipe op (u32 n) s; start_loop ops s

  -- `dach_pipe_start`; its result is 0.
  unfoldable pub pipe_start : Pipe → Result Pipe
  pipe_start pip = do s ← start_loop pip.oper_array pip.source; ok (record pip { source = s })

  -- The loop of `dach_pipe_tofile`, over the `n` blocks from `i` on, and the file.
  unfoldable pub tofile_loop : (n i : ℕ) → Stream → List ℕ → Result (Stream × List ℕ)
  tofile_loop zero i s fd = ok (s, fd)
  tofile_loop (suc n) i s fd = do
    db ← entry s.dblock_array_out i
    (pos, obj) ← block_seek self db.obj 0
    bytes ← block_tofile self obj
    expected ← get_length self obj
    assert (length bytes == expected)
    tofile_loop n (i + 1) (record s { dblock_array_out = store_obj s.dblock_array_out i db obj })
        (fd ++ bytes)

  -- `dach_pipe_tofile`; its result is always -1.
  unfoldable pub pipe_tofile : Pipe → List ℕ → Result (Pipe × List ℕ)
  pipe_tofile pip fd = do
    (s, fd') ← tofile_loop pip.source.block_count 0 pip.source fd
    ok (record pip { source = s }, fd')

  -- `stream_test_copy` of the tests, the operation that copies a block through a buffer. A round takes at least one
  -- byte of the block.
  unfoldable pub test_copy_loop : ℕ → Block → Block → Result (Block × Block)
  test_copy_loop zero in_blk out_blk = err no_fuel
  test_copy_loop (suc fuel) in_blk out_blk = do
    (got, in_blk) ← operation_read in_blk buf_size
    elim got [
      | none ↦ ok (in_blk, out_blk)
      | some buf ↦ (do out_blk ← operation_write out_blk buf; test_copy_loop fuel in_blk out_blk)
    ]

  unfoldable pub stream_test_copy : Callback
  stream_test_copy in_blk out_blk = test_copy_loop (in_blk.block_length + 1) in_blk out_blk

  -- `test_file_stream_writer` of the tests: a stream, a pipe with the two operations, and the file that it writes.
  unfoldable pub pipe_through : Result Stream → Callback → Callback → Result (List ℕ)
  pipe_through dsr dop dop2 = do
    s ← dsr
    pip ← pipe_add (pipe_new s dop) dop2
    pip ← pipe_start pip
    (pip, fp) ← pipe_tofile pip []
    ok fp
