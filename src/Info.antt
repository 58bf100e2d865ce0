-- ===== src/Info.antt =====
-- src/dach/dach.c: `info`, the listing of the headers of a file.
pub mod Listing
use dach.Base.{
  ℕ, zero, suc, ◌+◌, Bool, Result, ok, err, no_fuel, assert, ◌>>=◌, ◌>>◌, ◌==◌, ◌&&◌, if◌then◌else◌,
  List, [], ◌∷◌, ◌++◌, length, take, drop,
}
use dach.Header.{Header, header_size, new_blank, unpack, get_u8, get_field_u32}
use dach.Stream.{mapped}

-- What the loop prints of a header.
pub record Line : Type 0 where
  pub bid : ℕ
  pub maj : ℕ
  pub min : ℕ
  pub block_size : ℕ
  pub crc : ℕ

-- The loop of `info`, with the position `seek_where` in the file. The end of the file is only seen by a read, and a
-- read of less than a header ends the loop or stops at an assertion.
unfoldable pub info_loop :
    ℕ → List ℕ → (seek_where bid : ℕ) → Header → List Line → Result (List Line)
info_loop zero file seek_where bid hd1 lines = err no_fuel
info_loop (suc fuel) file seek_where bid hd1 lines = do
  let buf = take header_size (drop seek_where file)
  if length buf == 0 then ok lines else (do
    assert (length buf == header_size)
    hd1 ← unpack hd1 (mapped buf)
    id1 ← get_u8 hd1 "id1"
    id2 ← get_u8 hd1 "id2"
    maj ← get_u8 hd1 "major"
    min ← get_u8 hd1 "minor"
    if (id1 == b'H') && (id2 == b'J')
        then (do
          block_size ← get_field_u32 hd1 "block_size"
          crc ← get_field_u32 hd1 "crc"
          info_loop fuel file (seek_where + (block_size + header_size)) (bid + 1) hd1 (
              lines
              ++ (record { bid = bid; maj = maj; min = min; block_size = block_size; crc = crc }
                  ∷ [])))
        else ok lines)

-- `info` behind the opening of the file and the test of its name. `file_info_get` and `mmap_create` say whether apr
-- gives the size of the file and maps that many bytes, else an assertion stops the program. Each round moves on by a
-- header at least.
unfoldable pub info : (file_info_get : Bool) (mmap_create : ℕ → Bool) → List ℕ → Result (List Line)
info file_info_get mmap_create file = do
  assert file_info_get
  assert (mmap_create (length file))
  info_loop (length file + 1) file 0 0 new_blank []
