-- ===== src/Stream/Reader.antt =====
-- src/dach/tests/dach_stream_test.c: `test_file_stream_reader`, which reads a file through the blocks of a stream.
use mathlib.Core.List.{append_assoc, append-nil}
use dach.Base.{
  ℕ, zero, suc, ◌+◌, ◌-◌, ◌*◌, ◌^◌, ◌≤◌, ◌<◌, ◌≡◌, refl, ap, sym, ◌∙◌, arith, Array, Result, ok,
  err, overrun, assert, leb, ltb, le→leb, lt→ltb, ◌>>=◌, ◌>>◌, All, List, [], ◌∷◌, ◌++◌, length,
  length-append, length-tabulate, set_elem-append, some, none,
}
use dach.Block.{Mode, Block, slice, block_getc, get_length}
use dach.Block.Write.{IsReady, valid_thread_lem}
use dach.Block.Copy.{advanced, block_getc_lem, advanced-IsReady}
use dach.Stream.{Dblock, Stream, entry, store_obj, new_stream, new_block, blocks}
use dach.Stream.Partition.{get_block_count-Counted}
use dach.Stream.Table.{in_at, opened, new_stream-opened}
use dach.Stream.Pieces.{contents, joined}
use dach.Stream.Contents.{IsFresh, All-tabulate, in_at-IsFresh, few_blocks, table_lem}
use dach.Stream.Run.{at_block, entry-append, new_block_lem}

module _ (self : ℕ) where
  -- The loop over the characters of a block. `out` has those read so far; the source keeps the last of them.
  unfoldable pub read_chars : ℕ → Block → List ℕ → Result (Block × List ℕ)
  read_chars zero db out = ok (db, out)
  read_chars (suc n) db out = do (c, db) ← block_getc self db; read_chars n db (out ++ (c ∷ []))

  -- The loop over the blocks.
  unfoldable pub read_blocks : ℕ → Stream → List ℕ → Result (List ℕ)
  read_blocks zero dsr out = ok out
  read_blocks (suc n) dsr out = do
    (db, dsr) ← new_block dsr
    elim db [
      | none ↦ err overrun
      | some i ↦ (do
        d ← entry dsr.dblock_array i
        bsize ← get_length self d.obj
        (obj, out) ← read_chars bsize d.obj out
        read_blocks n (record dsr { dblock_array = store_obj dsr.dblock_array i d obj }) out)
    ]

  -- `test_file_stream_reader` on a file of the bytes `buff`, with `max_size` for `DACH_TEST_MAX_FILE_SIZE`: the
  -- characters that it reads.
  unfoldable pub test_file_stream_reader :
      (junk : Array) (junk_id junk_written max_size bsize : ℕ) → List ℕ → Result (List ℕ)
  test_file_stream_reader junk junk_id junk_written max_size bsize buff = do
    assert (leb (length buff) max_size)
    assert (ltb 0 bsize)
    assert (ltb 0 (length buff))
    dsr ←
        new_stream self junk junk_id junk_written
          (record { file = some buff; mode_str = "r"; block_size = bsize })
    bcount ← blocks dsr
    read_blocks bcount dsr []

  abbrev read : Block → ℕ → Block
  read b n = record b { pos = b.pos + n }

  read_chars_lem :
      (n : ℕ) (b : Block) (out : List ℕ)
      → IsReady self b
      → b.pos + n ≤ b.block_length
      → read_chars n b out ≡ ok (read b n, out ++ slice b.bytes b.pos n)
  unfolding read_chars slice
  read_chars_lem zero b out r h =
      let z : b.pos + 0 ≡ b.pos = omega arith in rw (append-nil out, z) refl
  read_chars_lem (suc n) b out r h =
      let up : b.pos + suc n ≡ b.pos + 1 + n = omega arith in
      rw (block_getc_lem r (omega arith), up)
        (read_chars_lem n (advanced b) (out ++ (b.bytes b.pos ∷ []))
            (advanced-IsReady r (omega arith)) (omega arith)
          ∙ rw (append_assoc) refl)

  module _ (block_size : ℕ) (base : Stream) (valid : base.err_no ≡ 0) (outs : List Dblock) where
    read_blocks-suc :
        (n : ℕ) (ins rest : List Dblock) (d : Dblock) (out : List ℕ)
        → IsFresh self block_size Mode.readable d.obj
        → length ins < base.block_count
        → read_blocks (suc n) (at_block base (length ins) (ins ++ (d ∷ rest)) outs) out
          ≡ read_blocks n
              (at_block base
                (length ins + 1)
                (ins ++ (record d { obj = read d.obj (d.obj.block_length) } ∷ rest))
                outs)
              (out ++ contents d.obj)
    unfolding read_blocks get_length
    read_blocks-suc n ins rest d out f h =
        let all =
          read_chars_lem d.obj.block_length d.obj out f.ready (omega (arith, f.start))
          ∙ ap
              (λ p.
                ok (
                  read d.obj (d.obj.block_length),
                  out ++ slice d.obj.bytes p (d.obj.block_length),
                ))
              f.start in
        rw
          (
            new_block_lem base valid ins rest outs d h,
            entry-append ins rest d,
            valid_thread_lem f.ready,
            all,
            set_elem-append ins rest d (record d { obj = read d.obj (d.obj.block_length) }),
          )
          refl

    read_blocks-joined :
        (ins rest : List Dblock) (out : List ℕ)
        → All (λ d. IsFresh self block_size Mode.readable d.obj) rest
        → length ins + length rest ≡ base.block_count
        → read_blocks (length rest) (at_block base (length ins) (ins ++ rest) outs) out
          ≡ ok (out ++ joined rest)
    unfolding read_blocks
    read_blocks-joined ins [] out f h = ap ok (sym (append-nil out))
    read_blocks-joined ins (d ∷ rest) out (f, fs) h =
        let d' : Dblock = record d { obj = read d.obj (d.obj.block_length) } in
        let more : length (ins ++ (d' ∷ [])) ≡ length ins + 1 =
          omega (arith, length-append ins (d' ∷ [])) in
        read_blocks-suc (length rest) ins rest d out f (omega arith)
        ∙ ap
            (λ k.
              read_blocks (length rest) (at_block base k (ins ++ (d' ∷ rest)) outs)
                (out ++ contents d.obj))
            (sym more)
        ∙ ap
            (λ xs.
              read_blocks (length rest) (at_block base (length (ins ++ (d' ∷ []))) xs outs)
                (out ++ contents d.obj))
            (sym (append_assoc ins (d' ∷ []) rest))
        ∙ read_blocks-joined (ins ++ (d' ∷ [])) rest (out ++ contents d.obj) fs (omega arith)
        ∙ ap ok (append_assoc out (contents d.obj) (joined rest))

  -- The blocks of the stream of a file give its bytes character by character, none more and in their order: for every
  -- file of at least one byte, at most `DACH_TEST_MAX_FILE_SIZE` bytes and fewer than 2 ^ 32 blocks, the reader of the
  -- tests returns, and has read the file.
  pub test_file_stream_reader-reads :
      (junk : Array) (junk_id junk_written max_size bsize : ℕ) (buff : List ℕ)
      → 0 < length buff
      → length buff ≤ max_size
      → 0 < bsize
      → length buff ≤ (2 ^ 32 - 1) * bsize
      → test_file_stream_reader junk junk_id junk_written max_size bsize buff ≡ ok buff
  unfolding test_file_stream_reader blocks
  test_file_stream_reader-reads junk junk_id junk_written max_size bsize buff some_bytes fits proper
        few =
      let c = get_block_count-Counted (length buff) bsize some_bytes proper in
      let base = opened self junk junk_id junk_written buff bsize c in
      let number =
        length-tabulate (suc c.before) 0 (in_at self junk junk_id junk_written buff bsize c) in
      let left : suc c.before - 0 ≡ length base.dblock_array = omega (arith, number) in
      let fresh =
        All-tabulate (λ d. IsFresh self bsize Mode.readable d.obj)
          (in_at self junk junk_id junk_written buff bsize c)
          (in_at-IsFresh self junk junk_id junk_written buff bsize c) (suc c.before) 0 in
      rw
        (
          le→leb (length buff) max_size fits,
          lt→ltb 0 bsize proper,
          lt→ltb 0 (length buff) some_bytes,
          new_stream-opened self junk junk_id junk_written buff bsize c proper some_bytes
              (few_blocks self junk junk_id junk_written buff bsize c few),
        )
        (ap (λ n. read_blocks n base []) left
          ∙ read_blocks-joined bsize base refl base.dblock_array_out [] base.dblock_array [] fresh
              (omega (arith, number))
          ∙ ap ok ((table_lem self junk junk_id junk_written buff bsize c).0))
