-- ===== src/Stream.antt =====
-- src/dach/dach_stream.c: a stream, the blocks of a file that is mapped into memory. Pipes are in Stream.Pipe.
pub mod Pipe
pub mod Partition
pub mod Table
pub mod Pieces
pub mod Contents
pub mod Run
pub mod Reader
pub mod Tofile
pub mod Through
pub mod CopyOperation
pub mod FreeBlock
use Prim.Native.String.{String}
use text.Mathlib.Text.{◌==◌ as str_eq}
use dach.Base.{
  ℕ, zero, suc, ◌+◌, ◌-◌, ◌*◌, ◌/◌, ◌%◌, Array, Result, ok, err, assertion, overrun, division,
  no_fuel, assert, check, ◌>>=◌, ◌>>◌, ltb, leb, ◌==◌, ◌&&◌, not, if◌then◌else◌, u32, Bool, true,
  false, List, [], ◌∷◌, ◌++◌, Option, some, none, length, get_elem?, set_elem,
}
use dach.Header.{header_size, header_new, pack}
use dach.Block.{Mode, Block, BlockInit, block_new, block_id, get_bytes_written, slice}

-- `dblock`. `lazy_create_blocks` leaves the fields but `obj` as `malloc` gave them.
pub record Dblock : Type 0 where
  pub obj : Block
  pub id : ℕ
  pub written_to_stream : ℕ

-- `DACH_CONFIG`, with the contents of the file, if there is one.
pub record Config : Type 0 where
  pub file : Option (List ℕ)
  pub mode_str : String
  pub block_size : ℕ

-- `dach_stream_obj`, without the fields that nothing reads. `outfile` has what was written to
-- `outfile_stream`, if that is no null pointer.
pub record Stream : Type 0 where
  pub mode : Mode
  pub filesize : ℕ
  pub mmap_data : Array
  pub block_count : ℕ
  pub blocks_returned : ℕ
  pub block_size_actual : ℕ
  pub last_block_size : ℕ
  pub dblock_array : List Dblock
  pub dblock_array_out : List Dblock
  pub outfile : Option (List ℕ)
  pub err_no : ℕ

-- The memory that a file is mapped to, zeros behind its end.
abbrev pub mapped : List ℕ → Array
mapped [] i = 0
mapped (c ∷ cs) zero = c
mapped (c ∷ cs) (suc i) = mapped cs i

-- `get_block_count`
unfoldable pub get_block_count : ℕ → ℕ → Result ℕ
get_block_count infilesize block_size = if leb infilesize block_size then ok 1 else (do
  check (not (block_size == 0)) division
  let bc = infilesize / block_size + 1
  let bc' = if infilesize % block_size == 0 then bc - 1 else bc
  assert (ltb 0 bc')
  ok bc')

-- `get_last_block_size`; the number of blocks is computed and not used.
unfoldable pub get_last_block_size : ℕ → ℕ → Result ℕ
get_last_block_size infilesize block_size = do
  block_count ← get_block_count infilesize block_size
  check (not (block_size == 0)) division
  ok (infilesize % block_size)

-- `test_block_size`; the result is not used.
unfoldable pub test_block_size : Stream → Result (Unit {0})
test_block_size s =
    if s.last_block_size == 0 then assert (s.filesize % s.block_size_actual == 0) else ok tt

-- `a[i]` in a list of blocks, and the block as it is after a call through its pointer.
abbrev pub entry : List Dblock → ℕ → Result Dblock
entry blocks i = elim (get_elem? blocks i) [ none ↦ err overrun | some d ↦ ok d ]

abbrev pub store_obj : List Dblock → ℕ → Dblock → Block → List Dblock
store_obj blocks i d b = set_elem blocks i (record d { obj = b })

-- `DACH_M_VOID_TO_STREAM`
abbrev pub valid_stream : Stream → Result (Unit {0})
valid_stream s = assert (s.err_no == 0)

-- The length of block `bid` in `lazy_create_blocks`.
unfoldable pub block_length_of : Stream → ℕ → Result ℕ
block_length_of s bid =
    if bid == (s.block_count - 1)
    then (do
      lastbsize ← get_last_block_size s.filesize s.block_size_actual
      ok (if lastbsize == 0 then s.block_size_actual else lastbsize))
    else ok s.block_size_actual

-- The calling thread, fresh memory, and what `malloc` left in the fields of a `dblock`.
module _ (self : ℕ) (junk : Array) (junk_id junk_written : ℕ) where
  -- The loop of `lazy_create_blocks`, over the number of the block and the position in the file.
  unfoldable pub create_loop :
      ℕ → Stream → (bid pos : ℕ) → List Dblock → List Dblock → Result (List Dblock × List Dblock)
  create_loop zero s bid pos ins outs =
      if ltb bid s.block_count then err no_fuel else ok (ins, outs)
  create_loop (suc fuel) s bid pos ins outs =
      if ltb bid s.block_count
      then (do
        block_length ← block_length_of s bid
        dbin ← block_new self junk (record {
          init_length = block_length;
          bid = bid;
          init_mode = s.mode;
          source = some (λ i. s.mmap_data (pos + i));
        })
        dbout ← block_new self junk (record {
          init_length = block_length;
          bid = bid;
          init_mode = Mode.writable;
          source = none;
        })
        create_loop fuel s (u32 (bid + 1)) (pos + s.block_size_actual)
            (ins ++ (record { obj = dbin; id = junk_id; written_to_stream = junk_written } ∷ []))
            (outs ++ (record { obj = dbout; id = junk_id; written_to_stream = junk_written } ∷ [])))
      else ok (ins, outs)

  unfoldable pub lazy_create_blocks : Stream → Result Stream
  lazy_create_blocks s = do
    (ins, outs) ← create_loop s.block_count s 0 0 [] []
    d ← entry ins 0
    id ← block_id self d.obj
    assert (id == 0)
    ok (record s { dblock_array = ins; dblock_array_out = outs })

  -- `priv_file_reader_new`. Only reading is implemented.
  unfoldable pub new_stream : Config → Result Stream
  new_stream dc =
      if str_eq dc.mode_str "w"
      then err assertion
      else (if str_eq dc.mode_str "r"
          then (elim dc.file [
            | none ↦ err assertion
            | some bytes ↦ (do
              assert (ltb 0 (length bytes))
              block_count ← get_block_count (length bytes) dc.block_size
              last ← get_last_block_size (length bytes) dc.block_size
              let s : Stream = record {
                mode = Mode.readable;
                filesize = length bytes;
                mmap_data = mapped bytes;
                block_count = block_count;
                blocks_returned = 0;
                block_size_actual = dc.block_size;
                last_block_size = last;
                dblock_array = [];
                dblock_array_out = [];
                outfile = none;
                err_no = 0;
              }
              test_block_size s >> lazy_create_blocks s)
          ])
          else err assertion)

-- `blocks`: how many are left.
unfoldable pub blocks : Stream → Result ℕ
blocks s = do valid_stream s; ok (s.block_count - s.blocks_returned)

-- `new_block`: the index of the next block of the file, or a null pointer behind the last.
unfoldable pub new_block : Stream → Result (Option ℕ × Stream)
new_block s = do
  valid_stream s
  if s.blocks_returned == s.block_count then ok (none, s) else (do
    assert (ltb s.blocks_returned s.block_count)
    d ← entry s.dblock_array s.blocks_returned
    ok (some s.blocks_returned, record s { blocks_returned = s.blocks_returned + 1 }))

module _ (self : ℕ) where
  -- `new_write_block`: the index of the block to write, for the index of a block of the file.
  unfoldable pub new_write_block : Stream → ℕ → Result ℕ
  new_write_block s in_blk = do
    valid_stream s
    d ← entry s.dblock_array in_blk
    in_bid ← block_id self d.obj
    out ← entry s.dblock_array_out in_bid
    ok in_bid

  -- `block_written`
  unfoldable pub block_written : Stream → ℕ → Result Bool
  block_written s bid = do d ← entry s.dblock_array bid; ok (ltb 0 d.written_to_stream)

  -- `write_to_stream` counts in a copy of the `dblock`, which is lost. `buf` is what the buffer of the header
  -- held.
  unfoldable pub write_to_stream : Array → Stream → ℕ → Result Stream
  write_to_stream buf s bid = do
    block ← entry s.dblock_array bid
    if block.written_to_stream == 1 then ok s else (do
      n ← get_bytes_written self block.obj
      buf' ← pack (header_new (u32 n) 1234567890 1) buf
      elim s.outfile [
        | none ↦ err overrun
        | some file ↦ ok (record s { outfile = some (file ++ slice buf' 0 header_size) })
      ])

  -- `free_block`, for the index of a block of the file.
  unfoldable pub free_block : Array → Stream → ℕ → Result Stream
  free_block buf s block = do
    valid_stream s
    d ← entry s.dblock_array block
    bid ← block_id self d.obj
    assert (bid == 0)
    dblk ← entry s.dblock_array bid
    assert (dblk.id == 0)
    if (bid == 0) && (dblk.written_to_stream == 0)
        then (do s ← write_to_stream buf s bid; assert (dblk.written_to_stream == 1); ok s)
        else (if ltb 0 bid
            then (do
              before ← block_written s (bid - 1)
              if before then write_to_stream buf s bid else ok s)
            else ok s)
