-- ===== src/Block/FileTest.antt =====
-- src/dach/tests/dach_block_test.c: a block that is written byte by byte, and read back from the file that it is
-- written to. The random size of the block and the random characters are parameters.
use dach.Base.{
  ℕ, zero, suc, ◌+◌, ◌-◌, ◌≤◌, ◌<◌, ◌^◌, ◌≡◌, refl, ap, sym, ◌∙◌, arith, Array, put, load, store,
  load_lem, store_lem, subst, Result, ok, assert, ◌>>=◌, ◌>>◌, ◌==◌, List, [], ◌∷◌, ◌++◌, length,
  none,
}
use dach.Block.{Mode, Block, slice, block_new, block_write, block_tofile}
use dach.Block.Write.{
  IsReady, blank, block_new-blank, blank-IsReady, slice-append, slice-snoc, block_write-Appended,
}
use dach.Block.Copy.{block_tofile_lem}

-- `cache_size` is `DACH_TEST_MAX_FILE_SIZE`, the size of `cache_buf`.
module _ (self cache_size : ℕ) where
  -- The loop that writes the characters, the first of which has the number `i`.
  unfoldable pub test_write_loop : List ℕ → ℕ → Array → Block → Result (Array × Block)
  test_write_loop [] i cache_buf blk = ok (cache_buf, blk)
  test_write_loop (c ∷ cs) i cache_buf blk = do
    cache_buf ← store cache_size cache_buf i c
    blk ← block_write self blk (c ∷ [])
    test_write_loop cs (i + 1) cache_buf blk

  -- The loop that reads the file, from the `n`-th character on. At the end of the file `in_buf[0]`, here `c`,
  -- stays as it was.
  unfoldable pub test_read_loop : (left n : ℕ) → Array → List ℕ → ℕ → Result (Unit {0})
  test_read_loop zero n cache_buf fp c = ok tt
  test_read_loop (suc left) n cache_buf [] c = do
    cached ← load cache_size cache_buf n
    assert (c == cached)
    test_read_loop left (n + 1) cache_buf [] c
  test_read_loop (suc left) n cache_buf (r ∷ fp) c = do
    cached ← load cache_size cache_buf n
    assert (r == cached)
    test_read_loop left (n + 1) cache_buf fp r

  -- A round of the loop of `main`, for a block of `size` bytes and the characters `cs`. The buffers hold `cache` and
  -- `first` before it, and the memory of the block holds `junk`.
  unfoldable pub block_test : (junk cache : Array) (first size : ℕ) → List ℕ → Result (Unit {0})
  block_test junk cache first size cs = do
    blk ←
        block_new self junk
          (record { init_length = size; bid = 0; init_mode = Mode.writable; source = none })
    (cache_buf, blk) ← test_write_loop cs 0 cache blk
    fp ← block_tofile self blk
    test_read_loop (length cs) 0 cache_buf fp first

  -- `result` is a block whose bytes before its position are those of the buffer.
  record IsFilled (pos : ℕ) (result : Result (Array × Block)) : Type 0 where
    cache_buf : Array
    blk : Block
    returns : result ≡ ok (cache_buf, blk)
    ready : IsReady self blk
    pos_lem : blk.pos ≡ pos
    same : slice blk.bytes 0 pos ≡ slice cache_buf 0 pos

  test_write_loop-suc :
      (c : ℕ) (cs : List ℕ) {i : ℕ} (cache_buf : Array) (blk : Block) {out : Block}
      → i < cache_size
      → block_write self blk (c ∷ []) ≡ ok out
      → test_write_loop (c ∷ cs) i cache_buf blk
        ≡ test_write_loop cs (i + 1) (put cache_buf i c) out
  unfolding test_write_loop
  test_write_loop-suc c cs {i} cache_buf blk h e = rw (store_lem cache_size cache_buf i c h, e) refl

  test_write_loop-IsFilled :
      (cs : List ℕ) (i : ℕ) (cache_buf : Array) {blk : Block}
      → IsReady self blk
      → blk.mode ≡ Mode.writable
      → blk.pos ≡ i
      → slice blk.bytes 0 i ≡ slice cache_buf 0 i
      → i + length cs ≤ cache_size
      → i + length cs < 2 ^ 64
      → IsFilled (i + length cs) (test_write_loop cs i cache_buf blk)
  test_write_loop-IsFilled [] i cache_buf {blk} r w p e room small =
      let z : i + 0 ≡ i = omega arith in
      record {
        cache_buf = cache_buf;
        blk = blk;
        returns = unfold test_write_loop in refl;
        ready = r;
        pos_lem = omega arith;
        same = ap (slice blk.bytes 0) z ∙ e ∙ ap (slice cache_buf 0) (sym z);
      }
  test_write_loop-IsFilled (c ∷ cs) i cache_buf {blk} r w p e room small =
      let a = block_write-Appended (c ∷ []) r w (omega arith) (omega arith) in
      let next : a.out.pos ≡ i + 1 = omega (arith, a.pos_lem) in
      let up : i + suc (length cs) ≡ i + 1 + length cs = omega arith in
      let rest =
        test_write_loop-IsFilled cs (i + 1) (put cache_buf i c) a.ready (a.writable ∙ w) next
          (ap (slice a.out.bytes 0) (sym next)
            ∙ a.contents
            ∙ ap (λ l. l ++ (c ∷ [])) (ap (slice blk.bytes 0) p ∙ e)
            ∙ sym (slice-snoc cache_buf c i))
          (omega arith) (omega arith) in
      record {
        cache_buf = rest.cache_buf;
        blk = rest.blk;
        returns = test_write_loop-suc c cs cache_buf blk (omega arith) a.returns ∙ rest.returns;
        ready = rest.ready;
        pos_lem = rest.pos_lem ∙ sym up;
        same = ap (slice rest.blk.bytes 0) up ∙ rest.same ∙ ap (slice rest.cache_buf 0) (sym up);
      }

  -- A file that begins with the characters of the buffer passes.
  test_read_loop_lem :
      (left n : ℕ) (cache_buf : Array) (fp : List ℕ) (c : ℕ)
      → n + left ≤ cache_size
      → test_read_loop left n cache_buf (slice cache_buf n left ++ fp) c ≡ ok tt
  unfolding test_read_loop slice
  test_read_loop_lem zero n cache_buf fp c h = refl
  test_read_loop_lem (suc left) n cache_buf fp c h =
      rw (load_lem cache_size cache_buf n (omega arith))
        (ground (arith, test_read_loop_lem left (n + 1) cache_buf fp (cache_buf n) (omega arith)))

  -- The test of blocks passes for every block of at least one byte: for characters that fit into its buffer, fewer than
  -- 2 ^ 64, the file that the block is written to begins with them.
  pub block_test-passes :
      (junk cache : Array) (first size : ℕ) (cs : List ℕ)
      → length cs ≤ cache_size
      → length cs < 2 ^ 64
      → 0 < size
      → block_test junk cache first size cs ≡ ok tt
  unfolding block_test slice
  block_test-passes junk cache first size cs room small nonempty =
      let count : 0 + length cs ≡ length cs = omega arith in
      let f =
        subst (λ n. IsFilled n (test_write_loop cs 0 cache (blank self junk size 0))) count
          (test_write_loop-IsFilled cs 0 cache (blank-IsReady self junk size 0) refl refl refl
            (omega arith) (omega arith)) in
      let all : f.blk.block_length ≡ length cs + (f.blk.block_length - length cs) =
        omega (arith, f.pos_lem, f.ready.pos_le) in
      let file =
        ap (slice f.blk.bytes 0) all
        ∙ slice-append f.blk.bytes 0 (length cs) (f.blk.block_length - length cs)
        ∙ ap
            (λ n.
              slice f.blk.bytes 0 (length cs)
              ++ slice f.blk.bytes n (f.blk.block_length - length cs))
            count
        ∙ ap (λ l. l ++ slice f.blk.bytes (length cs) (f.blk.block_length - length cs)) f.same in
      rw (block_new-blank self junk size 0 nonempty, f.returns, block_tofile_lem f.ready, file)
        (test_read_loop_lem (length cs) 0 f.cache_buf
          (slice f.blk.bytes (length cs) (f.blk.block_length - length cs)) first (omega arith))
