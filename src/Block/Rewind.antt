-- ===== src/Block/Rewind.antt =====
-- Reading a block again behind a seek.
use native.Mathlib.Decide.{ℕ_discrete}
use Prim.Native.Nat.{min}
use dach.Base.{
  ℕ, ◌+◌, ◌-◌, ◌≤◌, ◌<◌, ◌^◌, ◌≡◌, refl, ◌∙◌, arith, ok, ◌==◌, ◌>>=◌, true, false, Option, List,
  some, none,
}
use dach.Block.{Block, slice, block_read, block_seek}
use dach.Block.Write.{IsReady}
use dach.Block.Read.{block_read_lem}
use dach.Block.Copy.{block_seek-start}

abbrev at : Block → ℕ → Block
at b p = record b { pos = p }

at-IsReady :
    {self : ℕ} {b : Block} (p : ℕ) → IsReady self b → p ≤ b.block_length → IsReady self (at b p)
at-IsReady p r h = record { no_error = r.no_error; own = r.own; pos_le = h; room_le = r.room_le }

module _ {self : ℕ} {b : Block} (r : IsReady self b) (nonempty : 0 < b.block_length)
    (small : b.block_length < 2 ^ 63) where
  -- A read moves the position only, and stays inside the block.
  block_read-moves :
      (count : ℕ)
      → count < 2 ^ 63
      → (got : Option (List ℕ)) × (p : ℕ) × (block_read self b count ≡ ok (got, at b p))
        × (p ≤ b.block_length)
  block_read-moves count few = elim (ℕ_discrete b.pos b.block_length) [
    | yes e ↦
        let test : (b.pos == b.block_length) ≡ true = ground arith in
        (none, b.pos, block_read_lem count r small few ∙ rw test refl, r.pos_le)
    | no e ↦
        let test : (b.pos == b.block_length) ≡ false = ground arith in
        (
          some (slice b.bytes b.pos (min count (b.block_length - b.pos))),
          b.pos + min count (b.block_length - b.pos),
          block_read_lem count r small few ∙ rw test refl,
          omega (arith, r.pos_le),
        )
  ]

  -- The start of the block, as a read there gives it.
  block_read-start :
      (n : ℕ)
      → n < 2 ^ 63
      → block_read self (at b 0) n
        ≡ ok (some (slice b.bytes 0 (min n b.block_length)), at b (min n b.block_length))
  block_read-start n few =
      let test : (0 == b.block_length) ≡ false = ground arith in
      let all : b.block_length - 0 ≡ b.block_length = omega arith in
      let here : 0 + min n b.block_length ≡ min n b.block_length = omega arith in
      block_read_lem n (at-IsReady 0 r (omega arith)) small few ∙ rw (test, all, here) refl

  -- Behind any read of a block of at least one byte and a seek to any position inside it, a read gives the bytes from
  -- the start of the block on, as many as asked for or as there are: the position of the seek is lost.
  pub block_read-block_seek :
      (count pos n : ℕ)
      → count < 2 ^ 63
      → pos ≤ b.block_length
      → n < 2 ^ 63
      → (block_read self b count
          >>= (λ first. block_seek self first.1 pos >>= λ sought. block_read self sought.1 n))
        ≡ ok (some (slice b.bytes 0 (min n b.block_length)), at b (min n b.block_length))
  block_read-block_seek count pos n few inside small_n =
      let (got, p, e, le) = block_read-moves count few in
      let seek = (block_seek-start pos (at-IsReady p r le)).0 inside in
      rw (e, seek) (block_read-start n small_n)
