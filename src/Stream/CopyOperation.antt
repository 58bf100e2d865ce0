-- ===== src/Stream/CopyOperation.antt =====
-- The operation of the tests copies.
use Prim.Native.Nat.{min}
use native.Mathlib.Decide.{ℕ_discrete}
use dach.Base.{
  ℕ, zero, suc, ◌+◌, ◌-◌, ◌*◌, ◌^◌, ◌≤◌, ◌<◌, ◌≡◌, refl, ap, sym, ◌∙◌, subst, arith, Array, ok,
  lt→ltb, ◌==◌, true, false, List, [], ◌++◌, length, some, none,
}
use dach.Block.{Mode, Block, slice, block_read, block_write}
use dach.Block.Write.{IsReady, slice-append, block_write-Appended}
use dach.Block.Read.{block_read_lem}
use dach.Block.Copy.{length-slice}
use dach.Stream.{new_stream}
use dach.Stream.Pipe.{
  buf_size, operation_read, operation_write, test_copy_loop, stream_test_copy, pipe_through,
}
use dach.Stream.Pieces.{contents}
use dach.Stream.Run.{Ran, Computes}
use dach.Stream.Through.{pipe_through-IsThrough}

module _ (self : ℕ) where
  test_copy_loop-end :
      (fuel : ℕ) (in_blk out_blk : Block)
      → block_read self in_blk buf_size ≡ ok (none, in_blk)
      → test_copy_loop self (suc fuel) in_blk out_blk ≡ ok (in_blk, out_blk)
  unfolding test_copy_loop operation_read
  test_copy_loop-end fuel in_blk out_blk e = rw e refl

  test_copy_loop-suc :
      (fuel : ℕ) (in_blk out_blk : Block) {in_blk' out_blk' : Block} (buf : List ℕ)
      → block_read self in_blk buf_size ≡ ok (some buf, in_blk')
      → 0 < length buf
      → block_write self out_blk buf ≡ ok out_blk'
      → test_copy_loop self (suc fuel) in_blk out_blk ≡ test_copy_loop self fuel in_blk' out_blk'
  unfolding test_copy_loop operation_read operation_write
  test_copy_loop-suc fuel in_blk out_blk buf e h f = rw (e, lt→ltb 0 (length buf) h, f) refl

  module _ (in_blk : Block) (ready : IsReady self (record in_blk { pos = 0 }))
      (small : in_blk.block_length < 2 ^ 63) where
    -- The block after `k` bytes.
    abbrev at : ℕ → Block
    at k = record in_blk { pos = k }

    test_copy_loop-Ran :
        (fuel k : ℕ) (out_blk : Block)
        → IsReady self out_blk
        → out_blk.mode ≡ Mode.writable
        → out_blk.pos ≡ k
        → slice out_blk.bytes 0 out_blk.pos ≡ slice in_blk.bytes 0 k
        → out_blk.block_length ≡ in_blk.block_length
        → k ≤ in_blk.block_length
        → in_blk.block_length < k + fuel
        → Ran self (contents in_blk) (test_copy_loop self fuel (at k) out_blk)
    test_copy_loop-Ran zero k out_blk s w p e l h t = absurd (omega arith)
    test_copy_loop-Ran (suc fuel) k out_blk s w p e l h t =
        let here : IsReady self (at k) = record {
          no_error = ready.no_error;
          own = ready.own;
          pos_le = h;
          room_le = ready.room_le;
        } in
        let read = block_read_lem {b = at k} buf_size here small (omega arith) in
        elim (ℕ_discrete k in_blk.block_length) [
          | yes finished ↦
              let test : (k == in_blk.block_length) ≡ true = ground arith in
              record {
                source = at k;
                target = out_blk;
                returns = test_copy_loop-end fuel (at k) out_blk (read ∙ rw test refl);
                ready = s;
                contents_lem =
                    ap (λ n. slice out_blk.bytes 0 n) (l ∙ sym finished ∙ sym p)
                    ∙ e
                    ∙ ap (λ n. slice in_blk.bytes 0 n) finished;
              }
          | no more ↦
              let test : (k == in_blk.block_length) ≡ false = ground arith in
              let n : ℕ = min buf_size (in_blk.block_length - k) in
              let zero_k : k ≡ 0 + k = omega arith in
              let n_pos : 0 < n = omega arith in
              let n_le : k + n ≤ in_blk.block_length = omega arith in
              let buf = slice in_blk.bytes k n in
              let size = length-slice in_blk.bytes k n in
              let a = block_write-Appended buf s w (omega (arith, size)) (omega (arith, size)) in
              let next =
                test_copy_loop-Ran fuel (k + n) a.out a.ready (a.writable ∙ w)
                  (omega (arith, a.pos_lem, size))
                  (a.contents
                    ∙ ap (λ t. t ++ buf) e
                    ∙ ap (λ m. slice in_blk.bytes 0 k ++ slice in_blk.bytes m n) zero_k
                    ∙ sym (slice-append in_blk.bytes 0 k n))
                  (ground (arith, a.length_lem, a.pos_lem, size)) n_le (omega arith) in
              record {
                source = next.source;
                target = next.target;
                returns =
                    test_copy_loop-suc fuel (at k) out_blk buf (read ∙ rw test refl)
                      (omega (arith, size)) a.returns
                    ∙ next.returns;
                ready = next.ready;
                contents_lem = next.contents_lem;
              }
        ]

  -- The operation of the tests keeps the bytes of every block.
  pub stream_test_copy-Computes :
      (block_size : ℕ)
      → block_size < 2 ^ 63
      → Computes self block_size (λ p. p) (stream_test_copy self)
  unfolding stream_test_copy slice
  stream_test_copy-Computes block_size small in_blk out_blk r w same =
      let at_start : record in_blk { pos = 0 } ≡ in_blk =
        ap (λ n. record in_blk { pos = n }) (sym r.start) in
      let ready : IsReady self (record in_blk { pos = 0 }) =
        subst (IsReady self) (sym at_start) r.ready in
      let out_start : slice out_blk.bytes 0 out_blk.pos ≡ [] =
        ap (λ n. slice out_blk.bytes 0 n) w.start in
      subst
        (λ b. Ran self (contents in_blk) (test_copy_loop self (in_blk.block_length + 1) b out_blk))
        at_start
        (test_copy_loop-Ran in_blk ready (omega (arith, r.bounded)) (in_blk.block_length + 1) 0
          out_blk w.ready w.mode_lem w.start out_start same (omega arith) (omega arith))

  -- A pipe that copies with the operation of the tests writes the file that it read, for every file of at least one
  -- byte and fewer than 2 ^ 32 blocks of fewer than 2 ^ 63 bytes.
  pub pipe_through-stream_test_copy :
      (junk : Array) (junk_id junk_written : ℕ) (bytes : List ℕ) (block_size : ℕ)
      → 0 < length bytes
      → 0 < block_size
      → block_size < 2 ^ 63
      → length bytes ≤ (2 ^ 32 - 1) * block_size
      → pipe_through self
          (new_stream self junk junk_id junk_written
            (record { file = some bytes; mode_str = "r"; block_size = block_size }))
          (stream_test_copy self)
          (stream_test_copy self)
        ≡ ok bytes
  pipe_through-stream_test_copy junk junk_id junk_written bytes block_size some_bytes proper small
        few =
      let t =
        pipe_through-IsThrough self junk junk_id junk_written bytes block_size (λ p. p)
          (stream_test_copy self) (stream_test_copy self) some_bytes proper few
          (stream_test_copy-Computes block_size small) in
      t.returns ∙ ap ok t.whole
