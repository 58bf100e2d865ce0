-- ===== src/Block/Ending.antt =====
-- The operations of a block that the decoder uses end.
use dach.Base.{ℕ, zero, suc, List}
use dach.Base.Ends.{Ends, Any, Any-ok, ending}
use dach.Block.{Block, valid_thread, read_loop, block_read}

pub valid_thread-Ends : (self : ℕ) (b : Block) → Ends Any (valid_thread self b)
unfolding valid_thread
valid_thread-Ends self b = search ending

read_loop-Ends : (self n : ℕ) (b : Block) (out : List ℕ) → Ends Any (read_loop self n b out)
unfolding read_loop
read_loop-Ends self zero b out = Any-ok (out, b)
read_loop-Ends self (suc n) b out = search (ending, read_loop-Ends self n)

pub block_read-Ends : (self : ℕ) (b : Block) (count : ℕ) → Ends Any (block_read self b count)
unfolding block_read
block_read-Ends self b count = search (ending, valid_thread-Ends, read_loop-Ends) depth 12
