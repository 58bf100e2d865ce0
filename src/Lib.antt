-- ===== src/Lib.antt =====
-- A verification library for dach, a compressor: an adaptive order-0 model of the bytes and an
-- arithmetic coder over it.
--
-- The parts and their modules:
-- - Base: numbers, casts to fixed widths, lists, the results of C functions that may stop at an
--   `assert` or an `exit`, and arrays whose accesses are checked against their size. Base.Bits has
--   the masks and shifts of C as arithmetic.
-- - Ppm0 (src/dach/dach_ppm0.c): the model. `new`, `update`, `find_sym`, `cumfreq`, `chr_to_sym` and
--   `sym_to_chr` are `dach_ppm0_new_` and the exported operations; the tables are arrays of 288
--   entries. Ppm0.Inv has the invariant: the symbols rank the characters by frequency, and
--   each cumulative frequency is the sum of the frequencies from its symbol on. `find_loop`
--   runs on fuel 258, one round for each symbol.
-- - Model (inc/dach/dach_ppm0.h): the table of operations through which the coder calls its model,
--   and the laws that the coder relies on. Ppm0.Api fills both with dach_ppm0.c.
-- - Ar64 (src/dach/dach_ar64.c): the coder, over any such table of operations. Ar64.State has
--   `DACH_ARC` with its files, Ar64.Stream the bits in and out, Ar64.Coder encoder and decoder.
--   Their loops run on fuel 33: an interval with two numbers is normal after 31 shifts. Memory is
--   little-endian, as on the machines that the program is built for. The round trip goes through
--   Ar64.Trace, the intervals that encoder and decoder share, Ar64.Emit and Ar64.Stop, the bits
--   that the encoder puts out, and Ar64.Start and Ar64.DecodeLoop, the code word that follows them.
--   Its bound of 2 ^ 27 bytes keeps the counts of the model below 2 ^ 29, where a normal interval
--   has room for every symbol, and the bits below 2 ^ 32.
-- - Block (src/dach/dach_block.c, src/dach/dach_copy.c): blocks of memory, and the copy between two.
--   The thread of the caller is a parameter.
-- - Header (src/dach/dach_header.c): the bytes in front of a block.
-- - Codec (src/dach/dach.c): `encode` and `decode` of a file, from contents to contents. The
--   driver calls the model and the coder in turn. `decode_loop` runs on fuel for one round more
--   than the number of bytes that the file names. Codec.Worker has `ap_thread_encode_stream` and
--   `ap_non_thread_encode_stream`, where the block of the coder is the block that is read.
--   Codec.Driver (with src/dach/dach_io.c) has the names of the files that `encode` and `decode` open.
-- - Base.Ends: computations that end, with a value of a property or at a fault of the C code. The
--   modules named Ending, Ar64.BitsEnding, Ar64.DecodeEnding, Ar64.EncodeEnding and Codec.EncodeEnding
--   show it of each function in turn, so that the fuel of every loop of the coder is enough on any
--   input. Codec.Counting compares the model behind the bytes with a count.
-- - Stream (src/dach/dach_stream.c): the stream of a file that is mapped into memory, its table of
--   blocks and its operations; Stream.Pipe has the operations and pipes that run over them. A
--   pointer to a block of a table is its index, and a call through it stores the block back. The
--   loop that fills the table runs on fuel for the number of blocks. Stream.Reader and Block.FileTest
--   have the reader of dach_stream_test.c and the test of dach_block_test.c, in src/dach/tests.
-- - Substring (src/dach/dach_string.c): `dach_find_prev_substr`. Its loops run on fuel for one round
--   more than the position, which bounds both indices.
-- - Command (src/dach/dach_main.c, src/dach/dach_command.c): the settings, the table of commands and
--   `main`, for any functions of the commands, and `dach_get_arg`, for any `strstr`.
-- - Info (src/dach/dach.c): `info`, the listing of the headers of a file. Its loop runs on fuel for one
--   round more than the bytes of the file.
-- - Fdb (src/fdb/fdb_impl.c): the work on a file of the database of files, over what it uses of
--   sqlite and for any digest, and the walk over a tree, over `opendir`, `stat` and the pool of
--   threads. A task points to a buffer of the walk and works on what it holds when it runs. The
--   recursion of the walk runs on fuel for the depth of the directories. Fdb.Tree says what a file
--   system that holds a tree shows of it. Fdb.Main (src/fdb/fdb.c) has `main` and the walk that it
--   starts, Fdb.Exit how it ends and Fdb.Whole its run over a tree.
-- - Error (inc/dach/dach_error.h, src/dach/dach_error.c): the error numbers, for any `errno.h`, and
--   their texts.
-- - Tests: the theorems at concrete inputs.
--
-- Not modelled: `ap_thread_decode_stream` and the functions that would start the threads, which
-- call through a null stream; the interleaving of the threads of a pool with the walk, which
-- overwrites the buffer that a task points to and leaves its frame, so that a task may see it
-- change or gone; system calls, which are parameters or the contents of files here; `fread` and
-- `fwrite` transfer all that they are asked for up to the end of the file. The generated parsers
-- of the command line are left out, and so are the allocation of memory, which never fails here
-- but for a block of no bytes, and its release.
pub mod Base
pub mod Header
pub mod Model
pub mod Ppm0
pub mod Block
pub mod Ar64
pub mod Codec
pub mod Stream
pub mod Substring
pub mod Command
pub mod Fdb
pub mod Error
pub mod Info
pub mod Tests
