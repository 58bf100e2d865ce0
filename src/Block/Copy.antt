-- ===== src/Block/Copy.antt =====
-- Reading a block byte by byte, and the copy of one block into another.
use dach.Base.{
  ℕ, zero, suc, ◌+◌, ◌≤◌, ◌<◌, ◌^◌, ◌≡◌, refl, ap, sym, ◌∙◌, arith, Array, Result, ok, err,
  assertion, le→leb, if◌then◌else◌, leb, [], ◌∷◌, ◌++◌, length, load_lem, ◌>>=◌,
}
use mathlib.Core.List.{append_assoc, append-nil}
use dach.Block.{
  Mode, Block, slice, block_getc, block_write, copy_loop, copy, get_length, block_seek,
  block_tofile,
}
use dach.Block.Write.{IsReady, valid_thread_lem, Appended, block_write-Appended}

pub length-slice : (a : Array) (i n : ℕ) → length (slice a i n) ≡ n
unfolding slice
length-slice a i zero = refl
length-slice a i (suc n) = ap suc (length-slice a (i + 1) n)

abbrev pub advanced : Block → Block
advanced b = record b { pos = b.pos + 1 }

pub block_getc_lem :
    {self : ℕ} {b : Block}
    → IsReady self b
    → b.pos < b.block_length
    → block_getc self b ≡ ok (b.bytes b.pos, advanced b)
unfolding block_getc
block_getc_lem {b = b} r h =
    rw (valid_thread_lem r, load_lem b.room b.bytes b.pos (omega (arith, r.room_le))) refl

pub advanced-IsReady :
    {self : ℕ} {b : Block} → IsReady self b → b.pos < b.block_length → IsReady self (advanced b)
advanced-IsReady r h = record {
  no_error = r.no_error;
  own = r.own;
  pos_le = omega arith;
  room_le = r.room_le;
}

-- `result` is `in_blk` moved on by `n` bytes, and `out_blk` with those bytes appended.
pub record Copied (self : ℕ) (in_blk out_blk : Block) (n : ℕ) (result : Result (Block × Block))
    : Type 0 where
  pub source : Block
  pub target : Block
  pub returns : result ≡ ok (source, target)
  pub ready : IsReady self target
  pub source_pos : source.pos ≡ in_blk.pos + n
  pub target_pos : target.pos ≡ out_blk.pos + n
  pub contents :
      slice target.bytes 0 target.pos
      ≡ slice out_blk.bytes 0 out_blk.pos ++ slice in_blk.bytes in_blk.pos n
  pub length_lem :
      target.block_length
      ≡ (if leb out_blk.block_length target.pos then target.pos else out_blk.block_length)

module _ {self : ℕ} (n : ℕ) {in_blk out_blk : Block} (r : IsReady self in_blk)
    (s : IsReady self out_blk) (h : in_blk.pos < in_blk.block_length)
    (a : Appended self out_blk
      (in_blk.bytes in_blk.pos ∷ [])
      (block_write self out_blk (in_blk.bytes in_blk.pos ∷ []))) where
  copy_loop-suc : copy_loop self (suc n) in_blk out_blk ≡ copy_loop self n (advanced in_blk) a.out
  unfolding copy_loop
  copy_loop-suc = rw (block_getc_lem r h, a.returns) refl

  Copied-suc :
      Copied self (advanced in_blk) a.out n (copy_loop self n (advanced in_blk) a.out)
      → Copied self in_blk out_blk (suc n) (copy_loop self (suc n) in_blk out_blk)
  unfolding slice
  Copied-suc rest = record {
    source = rest.source;
    target = rest.target;
    returns = copy_loop-suc ∙ rest.returns;
    ready = rest.ready;
    source_pos = omega (arith, rest.source_pos);
    target_pos = omega (arith, rest.target_pos, a.pos_lem);
    contents = rest.contents ∙ rw (a.contents, append_assoc);
    length_lem = ground (arith, rest.length_lem, rest.target_pos, a.length_lem, a.pos_lem);
  }

copy_loop-Copied :
    (n : ℕ) {self : ℕ} {in_blk out_blk : Block}
    → IsReady self in_blk
    → IsReady self out_blk
    → out_blk.mode ≡ Mode.writable
    → in_blk.pos + n ≤ in_blk.block_length
    → out_blk.pos + n < 2 ^ 64
    → Copied self in_blk out_blk n (copy_loop self n in_blk out_blk)
copy_loop-Copied zero {self} {in_blk} {out_blk} r s w fits small = record {
  source = in_blk;
  target = out_blk;
  returns = unfold copy_loop in refl;
  ready = s;
  source_pos = omega arith;
  target_pos = omega arith;
  contents = unfold slice in sym (append-nil (slice out_blk.bytes 0 out_blk.pos));
  length_lem = ground (arith, s.pos_le);
}
copy_loop-Copied (suc n) {self} {in_blk} {out_blk} r s w fits small =
    let a = block_write-Appended (in_blk.bytes in_blk.pos ∷ []) s w (omega arith) (omega arith) in
    Copied-suc n r s (omega arith) a (
      copy_loop-Copied n (advanced-IsReady r (omega arith)) a.ready (a.writable ∙ w) (omega arith)
        (omega (arith, a.pos_lem)))

-- `dach_copy` from the start of a block returns, and has appended all the bytes of the block in
-- their order to those before the position of the writable block, which has grown just as far as
-- it had to.
pub copy-Copied :
    {self : ℕ} {in_blk out_blk : Block}
    → IsReady self in_blk
    → IsReady self out_blk
    → out_blk.mode ≡ Mode.writable
    → in_blk.pos ≡ 0
    → out_blk.pos + in_blk.block_length < 2 ^ 64
    → Copied self in_blk out_blk in_blk.block_length (copy self in_blk out_blk)
unfolding copy get_length
copy-Copied {in_blk = in_blk} r s w start small =
    rw (valid_thread_lem r) (copy_loop-Copied in_blk.block_length r s w (omega arith) small)

pub block_tofile_lem :
    {self : ℕ} {b : Block}
    → IsReady self b
    → block_tofile self b ≡ ok (slice b.bytes 0 b.block_length)
unfolding block_tofile
block_tofile_lem {b = b} r = rw (valid_thread_lem r, le→leb b.block_length b.room r.room_le) refl

-- A block that was filled by copying another one into its start writes to a file what that one
-- held, if that one is at least as long.
pub block_tofile-copy :
    {self : ℕ} {in_blk out_blk : Block}
    → IsReady self in_blk
    → IsReady self out_blk
    → out_blk.mode ≡ Mode.writable
    → in_blk.pos ≡ 0
    → out_blk.pos ≡ 0
    → out_blk.block_length ≤ in_blk.block_length
    → in_blk.block_length < 2 ^ 64
    → (copy self in_blk out_blk >>= λ blocks. block_tofile self blocks.1)
      ≡ ok (slice in_blk.bytes 0 in_blk.block_length)
unfolding slice
block_tofile-copy {in_blk = in_blk} {out_blk} r s w start blank shorter small =
    let c = copy-Copied r s w start (omega arith) in
    let at_end : c.target.pos ≡ in_blk.block_length = omega (arith, c.target_pos) in
    let full : c.target.block_length ≡ c.target.pos = ground (arith, c.length_lem, c.target_pos) in
    let all = c.contents ∙ rw (blank, start) refl in
    rw (c.returns, block_tofile_lem c.ready, full) (ap ok all)

-- Every seek inside the block goes back to its start, wherever it was meant to go, and one behind
-- its end stops at the assertion.
pub block_seek-start :
    {self : ℕ} {b : Block} (pos : ℕ)
    → IsReady self b
    → (pos ≤ b.block_length → block_seek self b pos ≡ ok (0, record b { pos = 0 }))
      × (b.block_length < pos → block_seek self b pos ≡ err assertion)
unfolding block_seek
block_seek-start pos r =
    (λ h. rw (valid_thread_lem r) (ground arith), λ h. rw (valid_thread_lem r) (ground arith))
