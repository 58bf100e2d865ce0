-- ===== src/Stream/Table.antt =====
-- The table of blocks that `lazy_create_blocks` builds.
use mathlib.Core.List.{append_assoc, append-nil}
use dach.Base.{
  ℕ, zero, suc, ◌+◌, ◌-◌, ◌*◌, ◌%◌, ◌^◌, ◌<◌, ◌≡◌, refl, ap, sym, ◌∙◌, arith, Array, ok, assert,
  if◌then◌else◌, ◌==◌, Bool, true, false, lt→ltb, le→ltb, List, [], ◌∷◌, ◌++◌, length, tabulate,
  some, none, u32,
}
use dach.Block.{Mode, block_new, block_id, valid_thread}
use dach.Block.Write.{block_new-blank}
use dach.Stream.{
  Dblock, Stream, mapped, get_last_block_size, block_length_of, create_loop, lazy_create_blocks,
  test_block_size, new_stream,
}
use dach.Stream.Partition.{Counted}

-- The length of block `i`.
abbrev pub length_at : {size block_size : ℕ} → Counted size block_size → ℕ → ℕ
length_at {block_size = block_size} c i = if i == c.before then c.last else block_size

module _ (self : ℕ) (junk : Array) (junk_id junk_written : ℕ) (bytes : List ℕ) (block_size : ℕ)
    (c : Counted (length bytes) block_size) where
  abbrev fresh_block : Mode → Array → ℕ → Dblock
  fresh_block m a i = record {
    obj = record {
      id = i;
      mode = m;
      pos = 0;
      bytes_written = 0;
      bytes = a;
      room = length_at c i;
      size = length_at c i;
      block_length = length_at c i;
      thread_id = self;
      err_no = 0;
    };
    id = junk_id;
    written_to_stream = junk_written;
  }

  -- Block `i` of the file, and the block to write for it.
  abbrev pub in_at : ℕ → Dblock
  in_at i = fresh_block Mode.readable (λ j. mapped bytes (i * block_size + j)) i

  abbrev pub out_at : ℕ → Dblock
  out_at i = fresh_block Mode.writable junk i

  -- The stream before its blocks are created.
  abbrev pub unfilled : Stream
  unfilled = record {
    mode = Mode.readable;
    filesize = length bytes;
    mmap_data = mapped bytes;
    block_count = suc c.before;
    blocks_returned = 0;
    block_size_actual = block_size;
    last_block_size = length bytes % block_size;
    dblock_array = [];
    dblock_array_out = [];
    outfile = none;
    err_no = 0;
  }

  abbrev pub opened : Stream
  opened = record unfilled {
    dblock_array = tabulate (suc c.before) 0 in_at;
    dblock_array_out = tabulate (suc c.before) 0 out_at;
  }

  module _ (proper : 0 < block_size) where
    get_last_block_size_lem :
        get_last_block_size (length bytes) block_size ≡ ok (length bytes % block_size)
    unfolding get_last_block_size
    get_last_block_size_lem = rw c.count_lem (ground arith)

    block_length_of_lem : (i : ℕ) → block_length_of unfilled i ≡ ok (length_at c i)
    unfolding block_length_of
    block_length_of_lem i =
        let e : suc c.before - 1 ≡ c.before = omega arith in
        rw (e, get_last_block_size_lem, c.last_lem) (go (i == c.before))
      where
        go :
            (b : Bool)
            → (if b then ok c.last else ok block_size) ≡ ok (if b then c.last else block_size)
        go true = refl
        go false = refl

    create_loop-tabulate :
        (n bid : ℕ) (ins outs : List Dblock)
        → bid + n ≡ suc c.before
        → suc c.before < 2 ^ 32
        → create_loop self junk junk_id junk_written n unfilled bid (bid * block_size) ins outs
          ≡ ok (ins ++ tabulate n bid in_at, outs ++ tabulate n bid out_at)
    unfolding create_loop block_new
    create_loop-tabulate zero bid ins outs e small =
        rw (le→ltb bid (suc c.before) (omega arith), append-nil ins, append-nil outs) refl
    create_loop-tabulate (suc n) bid ins outs e small =
        let next : u32 (bid + 1) ≡ bid + 1 = omega arith in
        let at : bid * block_size + block_size ≡ (bid + 1) * block_size = omega arith in
        rw
          (
            lt→ltb bid (suc c.before) (omega arith),
            block_length_of_lem bid,
            block_new-blank self junk (length_at c bid) bid (ground (arith, c.last_pos)),
            next,
            at,
            create_loop-tabulate n (bid + 1) (ins ++ (in_at bid ∷ [])) (outs ++ (out_at bid ∷ []))
                (omega arith) small,
            append_assoc ins (in_at bid ∷ []) (tabulate n (bid + 1) in_at),
            append_assoc outs (out_at bid ∷ []) (tabulate n (bid + 1) out_at),
          )
          refl

    module _ (some_bytes : 0 < length bytes) (small : suc c.before < 2 ^ 32) where
      lazy_create_blocks-opened :
          lazy_create_blocks self junk junk_id junk_written unfilled ≡ ok opened
      unfolding lazy_create_blocks block_id valid_thread
      lazy_create_blocks-opened =
          let start : 0 * block_size ≡ 0 = omega arith in
          let own : (self == self) ≡ true = ground arith in
          rw
            (
              ap
                    (λ pos.
                      create_loop self junk junk_id junk_written (suc c.before) unfilled 0 pos []
                        [])
                    (sym start)
                  ∙ create_loop-tabulate (suc c.before) 0 [] [] (omega arith) small,
              own,
            )
            refl

      test_block_size_lem : test_block_size unfilled ≡ ok tt
      unfolding test_block_size
      test_block_size_lem = go (length bytes % block_size == 0)
        where
          go : (b : Bool) → (if b then assert b else ok tt) ≡ ok tt
          go true = refl
          go false = refl

      pub new_stream-opened :
          new_stream self junk junk_id junk_written
            (record { file = some bytes; mode_str = "r"; block_size = block_size })
          ≡ ok opened
      unfolding new_stream
      new_stream-opened =
          rw
            (
              lt→ltb 0 (length bytes) some_bytes,
              c.count_lem,
              get_last_block_size_lem,
              test_block_size_lem,
              lazy_create_blocks-opened,
            )
            refl
