-- ===== src/Codec/ReadOnly.antt =====
-- The blocks of a stream of a file cannot be written, and so the functions that encode them never return.
use dach.Base.{
  ℕ, zero, suc, ◌+◌, ◌*◌, ◌-◌, ◌^◌, ◌≤◌, ◌<◌, ◌≡◌, refl, ap, ◌∙◌, arith, Array, Result, ok, assert,
  ◌>>=◌, >>=-ok, ◌==◌, not, ltb, u8, u32, some, List, [], ◌∷◌, length, All, true, false, overrun,
}
use dach.Base.Ends.{Ends, Any, ok-Ends, err-Ends, bind-Ends, if-Ends, assert-Ends, Any-load}
use dach.Block.{Block, Mode, is_writable, block_getc, block_write, get_length}
use dach.Block.Ending.{valid_thread-Ends}
use dach.Stream.{Stream, Dblock, entry, blocks as blocks_left, new_block, new_stream}
use dach.Stream.Pieces.{joined}
use dach.Stream.Contents.{IsFresh, new_stream-Partitioned}
use dach.Ppm0.Api.{ppm0_api}
use dach.Ppm0.Ending.{new-Ends}
use dach.Ar64.State.{Io, files, blocks, write_word}
use dach.Ar64.Coder.{new_block_arcoder, stop_encoder}
use dach.Ar64.BitsEnding.{Writing}
use dach.Ar64.EncodeEnding.{IsReady, encode-Ends, stop_encoder-Ends}
use dach.Codec.{Coder}
use dach.Codec.Ending.{ppm0_EndsApi}
use dach.Codec.Worker.{
  get_c, encode_chars, encode_block, non_thread_loop, non_thread_encode_stream, thread_loop,
  thread_encode_stream,
}

abbrev pub IsReadOnly : Io → Type 0
IsReadOnly (files input output) = ⊥
IsReadOnly (blocks b) = is_writable b.mode ≡ false

-- A word cannot go out to such a block.
write_word-Writing : (self : ℕ) → Writing self IsReadOnly ⊥
unfolding write_word block_write
write_word-Writing self = record { write_word-Ends = go }
  where
    go : (io : Io) (w : ℕ) → IsReadOnly io → Ends (λ io'. IsReadOnly io' × ⊥) (write_word self io w)
    go (files input output) w h = absurd h
    go (blocks b) w h =
        bind-Ends (λ _. ⊥) _ _ _
          (bind-Ends Any _ _ _ (valid_thread-Ends self b) (λ _ _.
            assert-Ends _ true _
              (λ _. assert-Ends _ (is_writable b.mode) _ (λ e. absurd (ground arith)))))
          (λ b' e. absurd e)

module _ (self : ℕ) where
  get_c-Ends : (io : Io) → IsReadOnly io → Ends (λ r. IsReadOnly r.1) (get_c self io)
  unfolding get_c block_getc
  get_c-Ends (files input output) h = absurd h
  get_c-Ends (blocks b) h =
      bind-Ends (λ r. is_writable r.1.mode ≡ false) _ _ _
        (bind-Ends Any _ _ _ (valid_thread-Ends self b)
          (λ _ _. bind-Ends Any _ _ _ (Any-load b.room b.bytes b.pos) (λ c _. ok-Ends _ _ h)))
        (λ (c, b') h'. ok-Ends _ _ h')

  encode_chars-Ends :
      (n : ℕ) (arc : Coder)
      → IsReady IsReadOnly arc
      → Ends (IsReady IsReadOnly) (encode_chars self n arc)
  unfolding encode_chars
  encode_chars-Ends zero arc r = ok-Ends _ _ r
  encode_chars-Ends (suc n) arc r =
      bind-Ends _ _ _ _ (get_c-Ends arc.io r.is_out.kept) (λ (c, io) kept.
        let held : Coder = record arc { io = io } in
        bind-Ends _ _ _ _
          (encode-Ends ppm0_api ppm0_EndsApi self (write_word-Writing self) held (u8 c)
            (record { size = r.size; is_out = record { kept = kept; room = r.is_out.room } }))
          (λ arc' r'. encode_chars-Ends n arc' r'))

  encode_block-Ends :
      (b : Block) → is_writable b.mode ≡ false → Ends (IsReady IsReadOnly) (encode_block self b)
  unfolding encode_block new_block_arcoder get_length
  encode_block-Ends b h = bind-Ends Any _ _ _ new-Ends (λ model _.
      bind-Ends (IsReady IsReadOnly) _ _ _
        (bind-Ends Any _ _ _
          (bind-Ends Any _ _ _ (valid_thread-Ends self b) (λ _ _. ok-Ends _ _ tt))
          (λ n _. assert-Ends _ (not (model.scale == 0)) _ (λ _.
            ok-Ends _ _
              (record { size = refl; is_out = record { kept = h; room = omega arith } }))))
        (λ arc r.
          bind-Ends Any _ _ _
            (bind-Ends Any _ _ _ (valid_thread-Ends self b) (λ _ _. ok-Ends _ _ tt))
            (λ n _. encode_chars-Ends (u32 n) arc r)))

  -- Such a block of a list, where there is one.
  entry-Ends : (P : Dblock → Type 0) (ds : List Dblock) (i : ℕ) → All P ds → Ends P (entry ds i)
  entry-Ends P [] i h = err-Ends _ overrun (λ e. cc)
  entry-Ends P (d ∷ ds) zero (p, ps) = ok-Ends _ _ p
  entry-Ends P (d ∷ ds) (suc i) (p, ps) = entry-Ends P ds i ps

  abbrev Reads : Dblock → Type 0
  Reads d = is_writable d.obj.mode ≡ false

  -- What each round does with the block that it takes never returns.
  never_stops :
      {B : Type 0} (b : Block) (rest : Coder → Result B)
      → is_writable b.mode ≡ false
      → Ends (λ _. ⊥) (encode_block self b >>= λ arc. stop_encoder ppm0_api self arc >>= rest)
  never_stops b rest h = bind-Ends _ _ _ _ (encode_block-Ends b h) (λ arc r.
      bind-Ends _ _ _ _ (stop_encoder-Ends ppm0_api self (write_word-Writing self) arc r)
        (λ last (kept, e). absurd e))

  module _ (s : Stream) (reads : All Reads s.dblock_array) (n : ℕ)
      (left : blocks_left s ≡ ok (suc n)) where
    left-count : s.block_count - s.blocks_returned ≡ suc n
    unfolding blocks_left
    left-count = let (u, e, e') = >>=-ok (assert (s.err_no == 0)) _ left in cc

    -- The next block is one of the file, and the stream keeps its blocks.
    new_block-Ends :
        Ends (λ r. (i : ℕ) × (r.0 ≡ some i) × (r.1.dblock_array ≡ s.dblock_array)) (new_block s)
    unfolding new_block
    new_block-Ends = assert-Ends _ (s.err_no == 0) _ (λ _.
        if-Ends _ (s.blocks_returned == s.block_count) _ _
          (λ e. absurd (ground (arith, left-count)))
          (λ _. assert-Ends _ (ltb s.blocks_returned s.block_count) _ (λ _.
            bind-Ends _ _ _ _ (entry-Ends Reads s.dblock_array s.blocks_returned reads)
              (λ d _. ok-Ends _ _ (s.blocks_returned, refl, refl)))))

    some_left : Ends (λ k. k ≡ suc n) (blocks_left s)
    some_left = rw left (ok-Ends _ _ refl)

    non_thread-Ends : (fuel : ℕ) → Ends (λ _. ⊥) (non_thread_loop self (suc fuel) 0 s)
    unfolding non_thread_loop
    non_thread-Ends fuel =
        bind-Ends _ (λ _. ⊥) _ _ some_left
          (λ k is_left.
            if-Ends _ (k == 0) _ _ (λ z. absurd (ground arith))
              (λ _.
                bind-Ends _ (λ _. ⊥) _ _ new_block-Ends
                  (λ (blk, s') (i, e, same).
                    rw (e, same)
                      (bind-Ends _ _ _ _ (entry-Ends Reads s.dblock_array i reads) (λ d h.
                        bind-Ends _ _ _ _ (encode_block-Ends (d.obj) h) (λ arc r.
                          assert-Ends _ true _ (λ _.
                            bind-Ends _ _ _ _
                              (stop_encoder-Ends ppm0_api self (write_word-Writing self) arc r)
                              (λ last (kept, e'). absurd e'))))))))

    thread-Ends : (buf : Array) (fuel : ℕ) → Ends (λ _. ⊥) (thread_loop self buf (suc fuel) s)
    unfolding thread_loop
    thread-Ends buf fuel =
        bind-Ends _ (λ _. ⊥) _ _ some_left
          (λ k is_left.
            if-Ends _ (k == 0) _ _ (λ z. absurd (ground arith))
              (λ _.
                bind-Ends _ (λ _. ⊥) _ _ new_block-Ends
                  (λ (blk, s') (i, e, same).
                    rw (e, same)
                      (bind-Ends _ _ _ _ (entry-Ends Reads s.dblock_array i reads)
                        (λ d h. never_stops (d.obj) _ h)))))

  -- A new stream of a file has only blocks to read, and at least one of them.
  All-Reads :
      (block_size : ℕ) (ds : List Dblock)
      → All (λ d. IsFresh self block_size Mode.readable d.obj) ds
      → All Reads ds
  All-Reads block_size [] h = tt
  All-Reads block_size (d ∷ ds) (f, fs) = (rw (f.mode_lem) refl, All-Reads block_size ds fs)

  module _ (junk : Array) (junk_id junk_written : ℕ) (bytes : List ℕ) (block_size : ℕ)
      (some_bytes : 0 < length bytes) (pos : 0 < block_size)
      (fits : length bytes ≤ (2 ^ 32 - 1) * block_size) (buf : Array) where
    nonempty : (ds : List Dblock) → joined ds ≡ bytes → (n : ℕ) × (length ds ≡ suc n)
    nonempty [] e = absurd (omega (arith, ap (length {A = ℕ}) e))
    nonempty (d ∷ ds) e = (length ds, refl)

    -- For a file of at least one byte and fewer than 2 ^ 32 blocks, neither of the two functions that encode the
    -- blocks of its stream ever returns: each ends at a fault, for the coder writes to the block that it reads.
    pub encode_stream-never_returns :
        Ends
          (λ _. ⊥)
          (new_stream self junk junk_id junk_written
              (record { file = some bytes; mode_str = "r"; block_size = block_size })
            >>= non_thread_encode_stream self)
        × Ends
            (λ _. ⊥)
            (new_stream self junk junk_id junk_written
                (record { file = some bytes; mode_str = "r"; block_size = block_size })
              >>= thread_encode_stream self buf)
    unfolding non_thread_encode_stream thread_encode_stream
    encode_stream-never_returns =
        let p =
          new_stream-Partitioned self junk junk_id junk_written bytes block_size some_bytes pos
            fits in
        let reads = All-Reads block_size p.stream.dblock_array p.to_read in
        let (n, count) = nonempty p.stream.dblock_array p.whole in
        let left : blocks_left p.stream ≡ ok (suc n) = p.left ∙ ap ok count in
        let next : p.stream.block_count + 1 ≡ suc p.stream.block_count = omega arith in
        rw (p.returns, next)
          (
            non_thread-Ends p.stream reads n left p.stream.block_count,
            thread-Ends p.stream reads n left buf p.stream.block_count,
          )
