-- ===== src/Stream/FreeBlock.antt =====
-- `free_block` of a stream.
use dach.Base.{
  ℕ, zero, suc, ◌≡◌, arith, Array, Result, ok, assert, ◌>>=◌, ◌>>◌, >>=-ok, ltb, ◌==◌, ◌&&◌,
  if◌then◌else◌, false,
}
use dach.Block.{block_id}
use dach.Stream.{Stream, valid_stream, entry, free_block, write_to_stream}

-- What follows the checks, for block 0 of the file.
after_checks :
    (bid written : ℕ) {s s' : Stream} (r other : Result Stream)
    → (if (bid == 0) && (written == 0)
        then (r >>= λ s₁. assert (written == 1) >> ok s₁)
        else (if ltb 0 bid then other else ok s))
      ≡ ok s'
    → bid ≡ 0
    → s ≡ s'
after_checks (suc bid) written r other e h = absurd (omega arith)
after_checks zero zero r other e h = let (s₁, same, e') = >>=-ok r _ e in cc
after_checks zero (suc written) r other e h =
    let test : (suc written == 0) ≡ false = ground arith in let same = rw test at e in cc

-- `free_block` writes nothing: where it returns, the stream is as it was.
pub free_block-same :
    (self : ℕ) (buf : Array) (s s' : Stream) (block : ℕ)
    → free_block self buf s block ≡ ok s'
    → s ≡ s'
unfolding free_block
free_block-same self buf s s' block e =
    let (u, e0, e) = >>=-ok (valid_stream s) _ e in
    let (d, e1, e) = >>=-ok (entry s.dblock_array block) _ e in
    let (bid, e2, e) = >>=-ok (block_id self d.obj) _ e in
    let (u, first, e) = >>=-ok (assert (bid == 0)) _ e in
    let (dblk, e4, e) = >>=-ok (entry s.dblock_array bid) _ e in
    let (u, e5, e) = >>=-ok (assert (dblk.id == 0)) _ e in
    after_checks bid dblk.written_to_stream (write_to_stream self buf s bid) _ e
      (ground (arith, first))
