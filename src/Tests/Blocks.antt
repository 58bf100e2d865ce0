-- ===== src/Tests/Blocks.antt =====
-- The theorems on blocks at concrete inputs.
use dach.Base.{
  ◌+◌, ◌-◌, ◌≡◌, refl, arith, zeroed, ok, ◌>>=◌, ◌==◌, if◌then◌else◌, [], ◌∷◌, some, none,
}
use Prim.Native.Nat.{min}
use dach.Block.{Mode, Block, slice, block_read, block_write, block_seek, block_tofile, copy}
use dach.Block.Write.{IsReady, Appended, block_write-Appended}
use dach.Block.Read.{block_read_lem}
use dach.Block.Rewind.{block_read-block_seek}
use dach.Block.FileTest.{block_test, block_test-passes}
use dach.Block.Copy.{Copied, copy-Copied, block_tofile-copy}

abbrev letters : Block
letters = record {
  id = 0;
  mode = Mode.readable;
  pos = 0;
  bytes_written = 0;
  bytes = λ i. i + b'a';
  room = 5;
  size = 5;
  block_length = 5;
  thread_id = 1;
  err_no = 0;
}

abbrev target : Block
target = record letters {
  mode = Mode.writable;
  bytes = zeroed;
  room = 3;
  size = 3;
  block_length = 3;
}

letters-IsReady : IsReady 1 letters
letters-IsReady = record {
  no_error = refl;
  own = refl;
  pos_le = omega arith;
  room_le = omega arith;
}

target-IsReady : IsReady 1 target
target-IsReady = record { no_error = refl; own = refl; pos_le = omega arith; room_le = omega arith }

block_write-Appended_example : Appended 1 target (7 ∷ 8 ∷ []) (block_write 1 target (7 ∷ 8 ∷ []))
block_write-Appended_example =
    block_write-Appended (7 ∷ 8 ∷ []) target-IsReady refl (omega arith) (omega arith)

block_read_lem_example : block_read 1 letters 2 ≡ (
    if letters.pos == letters.block_length
    then ok (none, letters)
    else ok (
      some (slice letters.bytes letters.pos (min 2 (letters.block_length - letters.pos))),
      record letters { pos = letters.pos + min 2 (letters.block_length - letters.pos) },
    ))
block_read_lem_example = block_read_lem 2 letters-IsReady (omega arith) (omega arith)

copy-Copied_example : Copied 1 letters target 5 (copy 1 letters target)
copy-Copied_example = copy-Copied letters-IsReady target-IsReady refl refl (omega arith)

block_tofile-copy_example :
    (copy 1 letters target >>= λ blocks. block_tofile 1 blocks.1) ≡ ok (slice letters.bytes 0 5)
block_tofile-copy_example =
    block_tofile-copy letters-IsReady target-IsReady refl refl refl (omega arith) (omega arith)

block_read-block_seek_example :
    (block_read 1 letters 2
      >>= (λ first. block_seek 1 first.1 3 >>= λ sought. block_read 1 sought.1 9))
    ≡ ok (some (slice letters.bytes 0 (min 9 5)), record letters { pos = min 9 5 })
block_read-block_seek_example =
    block_read-block_seek letters-IsReady (omega arith) (omega arith) 2 3 9 (omega arith)
      (omega arith) (omega arith)

block_test-passes_example : block_test 1 16 zeroed zeroed 0 2 (7 ∷ 8 ∷ 9 ∷ []) ≡ ok tt
block_test-passes_example =
    block_test-passes 1 16 zeroed zeroed 0 2 (7 ∷ 8 ∷ 9 ∷ []) (omega arith) (omega arith)
      (omega arith)
