-- ===== src/Block/Read.antt =====
-- Reading many bytes of a block at once.
use dach.Base.{
  ℕ, zero, suc, ◌+◌, ◌-◌, ◌≤◌, ◌<◌, ◌^◌, ◌≡◌, refl, ◌∙◌, arith, u64, ok, ◌==◌, if◌then◌else◌, List,
  [], ◌∷◌, ◌++◌, load_lem, none, some, false,
}
use Prim.Native.Nat.{min}
use mathlib.Core.List.{append_assoc, append-nil}
use dach.Block.{Block, slice, read_loop, block_read}
use dach.Block.Write.{IsReady, valid_thread_lem}

abbrev moved : Block → ℕ → Block
moved b n = record b { pos = b.pos + n }

read_loop_lem :
    (n : ℕ) {self : ℕ} {b : Block} (out : List ℕ)
    → IsReady self b
    → b.pos + n ≤ b.block_length
    → read_loop self n b out ≡ ok (out ++ slice b.bytes b.pos n, moved b n)
unfolding read_loop slice
read_loop_lem zero {b = b} out r fits =
    let z : b.pos + 0 ≡ b.pos = omega arith in rw (append-nil out, z) refl
read_loop_lem (suc n) {self} {b} out r fits =
    let more : (b.pos == b.block_length) ≡ false = ground arith in
    let up : b.pos + suc n ≡ b.pos + 1 + n = omega arith in
    let rest =
      read_loop_lem n {self = self} {b = moved b 1} (out ++ (b.bytes b.pos ∷ []))
        (record { no_error = r.no_error; own = r.own; pos_le = omega arith; room_le = r.room_le })
        (omega arith) in
    rw (more, load_lem b.room b.bytes b.pos (omega (arith, r.room_le)), up)
      (rest ∙ rw (append_assoc) refl)

-- `block_read` gives the bytes from the position on, as many as asked for or as are left, and
-- moves on behind them; at the end of the block it gives the result -1 and moves nothing.
pub block_read_lem :
    {self : ℕ} {b : Block} (count : ℕ)
    → IsReady self b
    → b.block_length < 2 ^ 63
    → count < 2 ^ 63
    → block_read self b count ≡ (
        if b.pos == b.block_length
        then ok (none, b)
        else ok (
          some (slice b.bytes b.pos (min count (b.block_length - b.pos))),
          moved b (min count (b.block_length - b.pos)),
        ))
unfolding block_read
block_read_lem {self} {b} count r small few =
    let sum : u64 (count + b.pos) ≡ count + b.pos = omega (arith, r.pos_le) in
    rw (valid_thread_lem r, sum)
      (ground (
        arith,
        r.pos_le,
        read_loop_lem count {self = self} {b = b} [] r,
        read_loop_lem (b.block_length - b.pos) {self = self} {b = b} [] r,
      ))
