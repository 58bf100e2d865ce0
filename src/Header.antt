-- ===== src/Header.antt =====
-- src/dach/dach_header.c: the 16 bytes in front of a block. Numbers lie in memory with the lowest
-- byte first.
pub mod RoundTrip
use Prim.Native.Nat.{bit_or}
use Prim.Native.String.{String}
use text.Mathlib.Text.{◌==◌ as str_eq}
use dach.Base.{
  ℕ, zero, suc, ◌+◌, ◌*◌, ◌/◌, ◌%◌, ◌^◌, Array, load, store, Result, ok, err, assertion, ◌>>=◌,
  if◌then◌else◌, u32, List, [], ◌∷◌,
}

-- `struct dach_header`
pub record Header : Type 0 where
  pub id1 : ℕ
  pub id2 : ℕ
  pub maj : ℕ
  pub min : ℕ
  pub block_size : ℕ
  pub crc : ℕ
  pub model : ℕ

abbrev pub header_size : ℕ
header_size = 16

abbrev pub new_blank : Header
new_blank = record { id1 = 0; id2 = 0; maj = 0; min = 0; block_size = 0; crc = 0; model = 0 }

abbrev pub header_new : ℕ → ℕ → ℕ → Header
header_new bsize crc model = record {
  id1 = b'H';
  id2 = b'J';
  maj = 0;
  min = 1;
  block_size = bsize;
  crc = crc;
  model = model;
}

unfoldable pub get_u8 : Header → String → Result ℕ
get_u8 hdr field =
    if str_eq field "id1"
    then ok hdr.id1
    else (if str_eq field "id2"
        then ok hdr.id2
        else (if str_eq field "major"
            then ok hdr.maj
            else (if str_eq field "minor" then ok hdr.min else err assertion)))

unfoldable pub get_field_u32 : Header → String → Result ℕ
get_field_u32 hdr field =
    if str_eq field "block_size"
    then ok hdr.block_size
    else (if str_eq field "crc"
        then ok hdr.crc
        else (if str_eq field "model" then ok hdr.model else err assertion))

-- The bytes of a `u32` in memory.
abbrev pub bytes_of : ℕ → Array
bytes_of w i = w / 256 ^ i % 256

-- `write_bytes`: `to[at + i] = from[start + i]` for the `n` values of `i` from the given one on. The
-- arrays have room for `size` and `from_size` bytes.
unfoldable pub write_bytes : ℕ → ℕ → Array → ℕ → Array → ℕ → ℕ → ℕ → Result Array
write_bytes size from_size to at from start zero i = ok to
write_bytes size from_size to at from start (suc n) i = do
  c ← load from_size from (start + i)
  to' ← store size to (at + i) c
  write_bytes size from_size to' at from start n (i + 1)

-- `dach_header_pack` into a buffer of 16 bytes.
unfoldable pub pack : Header → Array → Result Array
pack hdr packed = do
  p ← store header_size packed 0 hdr.id1
  p ← store header_size p 1 hdr.id2
  p ← store header_size p 2 hdr.maj
  p ← store header_size p 3 hdr.min
  p ← write_bytes header_size 4 p 4 (bytes_of hdr.block_size) 0 4 0
  p ← write_bytes header_size 4 p 8 (bytes_of hdr.crc) 0 4 0
  write_bytes header_size 4 p 12 (bytes_of hdr.model) 0 4 0

-- `get_u32` of the four bytes from `at` on.
unfoldable pub get_u32 : Array → ℕ → Result ℕ
get_u32 bytes at = do
  a ← load header_size bytes at
  b ← load header_size bytes (at + 1)
  c ← load header_size bytes (at + 2)
  d ← load header_size bytes (at + 3)
  ok (u32 (bit_or (bit_or (bit_or a (b * 2 ^ 8)) (c * 2 ^ 16)) (d * 2 ^ 24)))

-- `dach_header_unpack`, which does not read the model.
unfoldable pub unpack : Header → Array → Result Header
unpack hdr buff = do
  id1 ← load header_size buff 0
  id2 ← load header_size buff 1
  maj ← load header_size buff 2
  min ← load header_size buff 3
  block_size ← get_u32 buff 4
  crc ← get_u32 buff 8
  ok (record hdr { id1 = id1; id2 = id2; maj = maj; min = min; block_size = block_size; crc = crc })

-- `dach_write_hdr_u32`: the four bytes that it leaves in `header`.
pub write_hdr_u32 : Array → ℕ → Result Array
write_hdr_u32 header w = write_bytes 4 4 header 0 (bytes_of w) 0 4 0

-- `dach_read_hdr_u32`: the number that the four bytes of `header` give.
pub read_hdr_u32 : Array → ℕ → Result ℕ
read_hdr_u32 header w = do
  t ← write_bytes 4 4 (bytes_of w) 0 header 0 4 0
  ok (t 0 + 256 * t 1 + 256 ^ 2 * t 2 + 256 ^ 3 * t 3)
