-- ===== src/Tests/Streams.antt =====
-- The theorems on streams and pipes at concrete inputs.
use dach.Base.{ℕ, ◌≡◌, refl, arith, zeroed, Result, ok, List, [], ◌∷◌, some}
use dach.Block.{Mode, Block, block_id, valid_thread}
use dach.Stream.{Stream, new_stream, free_block, mapped}
use dach.Stream.Pipe.{stream_test_copy, pipe_through}
use dach.Stream.Partition.{Counted, get_block_count-Counted}
use dach.Stream.Contents.{Partitioned, new_stream-Partitioned}
use dach.Stream.Through.{IsThrough, pipe_through-IsThrough}
use dach.Stream.CopyOperation.{stream_test_copy-Computes, pipe_through-stream_test_copy}
use dach.Stream.Reader.{test_file_stream_reader, test_file_stream_reader-reads}
use dach.Stream.FreeBlock.{free_block-same}

abbrev five : List ℕ
five = 1 ∷ 2 ∷ 3 ∷ 4 ∷ 5 ∷ []

-- A file of five bytes in blocks of two.
abbrev five_stream : Result Stream
five_stream = new_stream 7 zeroed 0 0 (record { file = some five; mode_str = "r"; block_size = 2 })

get_block_count-Counted_example : Counted 5 2
get_block_count-Counted_example = get_block_count-Counted 5 2 (omega arith) (omega arith)

new_stream-Partitioned_example : Partitioned 7 five 2 five_stream
new_stream-Partitioned_example =
    new_stream-Partitioned 7 zeroed 0 0 five 2 (omega arith) (omega arith) (omega arith)

pipe_through-IsThrough_example :
    IsThrough 2 (λ p. p) five (pipe_through 7 five_stream (stream_test_copy 7) (stream_test_copy 7))
pipe_through-IsThrough_example =
    pipe_through-IsThrough 7 zeroed 0 0 five 2 (λ p. p) (stream_test_copy 7) (stream_test_copy 7)
      (omega arith) (omega arith) (omega arith) (stream_test_copy-Computes 7 2 (omega arith))

pipe_through-stream_test_copy_example :
    pipe_through 7 five_stream (stream_test_copy 7) (stream_test_copy 7) ≡ ok five
pipe_through-stream_test_copy_example =
    pipe_through-stream_test_copy 7 zeroed 0 0 five 2 (omega arith) (omega arith) (omega arith)
      (omega arith)

abbrev one_block : Block
one_block = record {
  id = 0;
  mode = Mode.readable;
  pos = 0;
  bytes_written = 0;
  bytes = mapped five;
  room = 5;
  size = 5;
  block_length = 5;
  thread_id = 7;
  err_no = 0;
}

-- A stream with one block, which counts as written.
abbrev one_stream : Stream
one_stream = record {
  mode = Mode.readable;
  filesize = 5;
  mmap_data = mapped five;
  block_count = 1;
  blocks_returned = 1;
  block_size_actual = 5;
  last_block_size = 0;
  dblock_array = record { obj = one_block; id = 0; written_to_stream = 1 } ∷ [];
  dblock_array_out = record { obj = one_block; id = 0; written_to_stream = 1 } ∷ [];
  outfile = some [];
  err_no = 0;
}

one_stream_freed : free_block 7 zeroed one_stream 0 ≡ ok one_stream
unfolding free_block block_id valid_thread
one_stream_freed = refl

free_block-same_example : one_stream ≡ one_stream
free_block-same_example = free_block-same 7 zeroed one_stream one_stream 0 one_stream_freed

test_file_stream_reader-reads_example : test_file_stream_reader 7 zeroed 0 0 64 2 five ≡ ok five
test_file_stream_reader-reads_example =
    test_file_stream_reader-reads 7 zeroed 0 0 64 2 five (omega arith) (omega arith) (omega arith)
      (omega arith)
