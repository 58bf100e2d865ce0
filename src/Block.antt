-- ===== src/Block.antt =====
-- src/dach/dach_block.c and src/dach/dach_copy.c: blocks of memory that are read or written in
-- sequence.
pub mod Write
pub mod Copy
pub mod Read
pub mod Ending
pub mod FileTest
pub mod Rewind
use dach.Base.{
  ℕ, zero, suc, ◌+◌, ◌-◌, Array, load, store, Result, ok, assert, assertion, check, overrun, exits,
  ◌>>=◌, ◌>>◌, ltb, leb, ◌==◌, if◌then◌else◌, u64, Bool, true, false, not, ◌||◌, List, [], ◌∷◌,
  ◌++◌, Option, some, none, length,
}

-- `DACH_STREAM_MODE`
pub data Mode : Type 0 where
  invalid readable writable readwrite : Mode

abbrev pub is_readable : Mode → Bool
is_readable readable = true
is_readable _ = false

abbrev pub is_writable : Mode → Bool
is_writable writable = true
is_writable _ = false

-- `dach_block_init`; `source` is what `data` points to, if it is no null pointer.
pub record BlockInit : Type 0 where
  pub init_length : ℕ
  pub bid : ℕ
  pub init_mode : Mode
  pub source : Option Array

-- `dach_block_obj`, with the number of bytes that `bytes` has room for, and without its fields
-- `type`, `free`, `start_pos` and `pad`, which no operation reads.
pub record Block : Type 0 where
  pub id : ℕ
  pub mode : Mode
  pub pos : ℕ
  pub bytes_written : ℕ
  pub bytes : Array
  pub room : ℕ
  pub size : ℕ
  pub block_length : ℕ
  pub thread_id : ℕ
  pub err_no : ℕ

-- The first `n` bytes from `i` on.
unfoldable pub slice : Array → ℕ → ℕ → List ℕ
slice a i zero = []
slice a i (suc n) = a i ∷ slice a (i + 1) n

-- The calling thread, as `pthread_self` gives it, and what fresh memory holds, which C does not say.
module _ (self : ℕ) (junk : Array) where
  -- `dach_block_new` and `priv_block_init`. A block to write gets memory from `malloc`, which gives none for no bytes, as
  -- the comment on `dach_block_init` has it, so that the assertion behind it stops; any other block points to the memory
  -- that it is given, and none can be accessed behind a null pointer.
  unfoldable pub block_new : BlockInit → Result Block
  block_new dbi = do
    assert (elim dbi.source [ none ↦ true | some a ↦ is_readable dbi.init_mode ])
    let given : Array = elim dbi.source [ none ↦ junk | some a ↦ a ]
    check (not (is_writable dbi.init_mode) || ltb 0 dbi.init_length) assertion
    ok (record {
      id = dbi.bid;
      mode = dbi.init_mode;
      pos = 0;
      bytes_written = 0;
      bytes = if is_writable dbi.init_mode then junk else given;
      room = elim dbi.source [
        | none ↦ if is_writable dbi.init_mode then dbi.init_length else 0
        | some a ↦ dbi.init_length
      ];
      size = dbi.init_length;
      block_length = dbi.init_length;
      thread_id = self;
      err_no = 0;
    })

module _ (self : ℕ) where
  -- `DACH_M_VOID_TO_BLOCK` and `DACH_M_BLOCK_THREAD_ASSERT`.
  unfoldable pub valid_thread : Block → Result (Unit {0})
  valid_thread b = do check (b.err_no == 0) exits; assert (b.thread_id == self)

  unfoldable pub read_loop : ℕ → Block → List ℕ → Result (List ℕ × Block)
  read_loop zero b out = ok (out, b)
  read_loop (suc n) b out = if b.pos == b.block_length then ok (out, b) else (do
    c ← load b.room b.bytes b.pos
    read_loop n (record b { pos = b.pos + 1 }) (out ++ (c ∷ [])))

  -- `none` is the result -1. A list is what the read put into the buffer.
  unfoldable pub block_read : Block → ℕ → Result (Option (List ℕ) × Block)
  block_read b count = do
    valid_thread b
    assert (leb b.pos b.block_length)
    let short = leb b.block_length (u64 (count + b.pos))
    let count' = if short then b.block_length - b.pos else count
    if short
        then (if count' == 0 then ok (none, b) else (do
          (out, b') ← read_loop count' b []
          assert (leb b'.pos b'.block_length)
          ok (some out, b')))
        else (do
          (out, b') ← read_loop count' b []
          assert (leb b'.pos b'.block_length)
          ok (some out, b'))

  unfoldable pub write_loop : List ℕ → Block → Result Block
  write_loop [] b = ok b
  write_loop (c ∷ cs) b = do
    bytes ← store b.room b.bytes b.pos c
    let pos' = b.pos + 1
    write_loop cs (record b {
      bytes = bytes;
      pos = pos';
      block_length = if ltb b.block_length pos' then pos' else b.block_length;
      bytes_written = b.bytes_written + 1;
    })

  -- The buffer holds the `count` bytes. The result 1 carries nothing.
  unfoldable pub block_write : Block → List ℕ → Result Block
  block_write b buf = do
    valid_thread b
    assert (ltb 0 (length buf))
    assert (is_writable b.mode)
    let end = u64 (length buf + b.pos)
    let grown = if leb b.block_length end then record b { room = end; block_length = end } else b
    b' ← write_loop buf grown
    assert (leb b'.pos b'.block_length)
    ok b'

  unfoldable pub block_id : Block → Result ℕ
  block_id b = do valid_thread b; ok b.id

  -- What goes to the file; `fwrite` writes it all.
  unfoldable pub block_tofile : Block → Result (List ℕ)
  block_tofile b = do
    valid_thread b
    check (leb b.block_length b.room) overrun
    ok (slice b.bytes 0 b.block_length)

  unfoldable pub get_length : Block → Result ℕ
  get_length b = do valid_thread b; ok b.block_length

  -- There is no test against the length.
  unfoldable pub block_getc : Block → Result (ℕ × Block)
  block_getc b = do
    valid_thread b
    c ← load b.room b.bytes b.pos
    ok (c, record b { pos = b.pos + 1 })

  unfoldable pub get_bytes_written : Block → Result ℕ
  get_bytes_written b = do valid_thread b; ok b.bytes_written

  -- The result is the new position.
  unfoldable pub block_seek : Block → ℕ → Result (ℕ × Block)
  block_seek b pos = do
    valid_thread b
    assert (leb pos b.block_length)
    ok (0, record b { pos = 0 })

  unfoldable pub copy_loop : ℕ → Block → Block → Result (Block × Block)
  copy_loop zero in_blk out_blk = ok (in_blk, out_blk)
  copy_loop (suc n) in_blk out_blk = do
    (c, in_blk') ← block_getc in_blk
    out_blk' ← block_write out_blk (c ∷ [])
    copy_loop n in_blk' out_blk'

  -- `dach_copy`
  unfoldable pub copy : Block → Block → Result (Block × Block)
  copy in_blk out_blk = do n ← get_length in_blk; copy_loop n in_blk out_blk
