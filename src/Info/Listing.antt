-- ===== src/Info/Listing.antt =====
-- `info` lists the headers of a file of blocks.
use mathlib.Core.List.{append_assoc, append-nil}
use dach.Base.{
  ℕ, zero, suc, ◌+◌, ◌≤◌, ◌<◌, ◌^◌, ◌≡◌, refl, ap, ap₂, sym, ◌∙◌, arith, zeroed, Bool, true, Result,
  ok, ◌>>=◌, All, List, [], ◌∷◌, ◌++◌, length, length-append, take, drop,
}
use dach.Block.{slice}
use dach.Header.{
  Header, header_size, header_new, new_blank, pack, unpack, get_u8, get_field_u32, bytes_of,
  write_bytes, get_u32,
}
use dach.Header.RoundTrip.{unpack-pack}
use dach.Stream.{mapped}
use dach.Info.{Line, info_loop, info}

-- The bytes of a number, lowest first, and those of a header.
abbrev u32_bytes : ℕ → List ℕ
u32_bytes w = slice (bytes_of w) 0 4

abbrev header_bytes : Header → List ℕ
header_bytes h =
    h.id1
    ∷ h.id2
    ∷ h.maj
    ∷ h.min
    ∷ (u32_bytes h.block_size ++ (u32_bytes h.crc ++ u32_bytes h.model))

unpack-header_bytes :
    (h hd : Header) → unpack hd (mapped (header_bytes h)) ≡ (pack h zeroed >>= unpack hd)
unfolding pack write_bytes slice unpack get_u32
unpack-header_bytes h hd = refl

take-header_bytes :
    (h : Header) (rest : List ℕ) → take header_size (header_bytes h ++ rest) ≡ header_bytes h
unfolding slice
take-header_bytes h rest = refl

length-header_bytes : (h : Header) → length (header_bytes h) ≡ 16
unfolding slice
length-header_bytes h = refl

drop-append : (xs ys : List ℕ) → drop (length xs) (xs ++ ys) ≡ ys
drop-append [] ys = refl
drop-append (x ∷ xs) ys = drop-append xs ys

-- A block of a file: the bytes behind its header.
pub record Frame : Type 0 where
  pub crc : ℕ
  pub model : ℕ
  pub data_bytes : List ℕ

abbrev pub header_of : Frame → Header
header_of f = header_new (length f.data_bytes) f.crc f.model

-- The file of some blocks, and the lines for their headers.
abbrev file_of : List Frame → List ℕ
file_of [] = []
file_of (f ∷ fs) = header_bytes (header_of f) ++ (f.data_bytes ++ file_of fs)

abbrev pub lines_of : ℕ → List Frame → List Line
lines_of i [] = []
lines_of i (f ∷ fs) =
    record { bid = i; maj = 0; min = 1; block_size = length f.data_bytes; crc = f.crc }
    ∷ lines_of (i + 1) fs

info_loop-end :
    (fuel : ℕ) (before : List ℕ) (bid : ℕ) (hd : Header) (lines : List Line)
    → info_loop (suc fuel) (before ++ []) (length before) bid hd lines ≡ ok lines
unfolding info_loop
info_loop-end fuel before bid hd lines = rw (drop-append before []) refl

info_loop-suc :
    (fuel : ℕ) (before rest : List ℕ) (bid : ℕ) (hd : Header) (lines : List Line) (f : Frame)
    → unpack hd (mapped (header_bytes (header_of f)))
      ≡ ok (record (header_of f) { model = hd.model })
    → info_loop
        (suc fuel)
        (before ++ (header_bytes (header_of f) ++ rest))
        (length before)
        bid
        hd
        lines
      ≡ info_loop fuel
          (before ++ (header_bytes (header_of f) ++ rest))
          (length before + (length f.data_bytes + header_size))
          (bid + 1)
          (record (header_of f) { model = hd.model })
          (lines
            ++ (record {
              bid = bid;
              maj = 0;
              min = 1;
              block_size = length f.data_bytes;
              crc = f.crc;
            }
                ∷ []))
unfolding info_loop get_u8 get_field_u32 slice
info_loop-suc fuel before rest bid hd lines f e =
    rw
      (
        drop-append before (header_bytes (header_of f) ++ rest),
        take-header_bytes (header_of f) rest,
        length-header_bytes (header_of f),
        e,
      )
      refl

-- The fields of a header hold the length and the checksum of its block.
abbrev pub IsSmall : Frame → Type 0
IsSmall f = (length f.data_bytes < 2 ^ 32) × (f.crc < 2 ^ 32)

info_loop-lines_of :
    (fs : List Frame) (fuel : ℕ) (before : List ℕ) (bid : ℕ) (hd : Header) (lines : List Line)
    → All IsSmall fs
    → length fs < fuel
    → info_loop fuel (before ++ file_of fs) (length before) bid hd lines
      ≡ ok (lines ++ lines_of bid fs)
info_loop-lines_of fs zero before bid hd lines small h = absurd (omega arith)
info_loop-lines_of [] (suc fuel) before bid hd lines small h =
    info_loop-end fuel before bid hd lines ∙ ap ok (sym (append-nil lines))
info_loop-lines_of (f ∷ fs) (suc fuel) before bid hd lines ((short, crc_lem), small) h =
    let e =
      unpack-header_bytes (header_of f) hd ∙ unpack-pack (header_of f) hd zeroed short crc_lem in
    let head = header_bytes (header_of f) in
    let before' = before ++ (head ++ f.data_bytes) in
    let line : Line = record {
      bid = bid;
      maj = 0;
      min = 1;
      block_size = length f.data_bytes;
      crc = f.crc;
    } in
    let next : length before + (length f.data_bytes + header_size) ≡ length before' = omega (
      arith,
      length-append before (head ++ f.data_bytes),
      length-append head f.data_bytes,
      length-header_bytes (header_of f),
    ) in
    let whole : before ++ (head ++ (f.data_bytes ++ file_of fs)) ≡ before' ++ file_of fs =
      ap (λ t. before ++ t) (sym (append_assoc head f.data_bytes (file_of fs)))
      ∙ sym (append_assoc before (head ++ f.data_bytes) (file_of fs)) in
    let hd' : Header = record (header_of f) { model = hd.model } in
    info_loop-suc fuel before (f.data_bytes ++ file_of fs) bid hd lines f e
    ∙ ap₂ (λ file pos. info_loop fuel file pos (bid + 1) hd' (lines ++ (line ∷ []))) whole next
    ∙ info_loop-lines_of fs fuel before' (bid + 1) hd' (lines ++ (line ∷ [])) small (omega arith)
    ∙ ap ok (append_assoc lines (line ∷ []) (lines_of (bid + 1) fs))

length-file_of : (fs : List Frame) → length fs ≤ length (file_of fs)
length-file_of [] = omega arith
length-file_of (f ∷ fs) = omega (
  arith,
  length-file_of fs,
  length-append (header_bytes (header_of f)) (f.data_bytes ++ file_of fs),
  length-append f.data_bytes (file_of fs),
  length-header_bytes (header_of f),
)

-- The file of the blocks, each behind the header that `dach_header_pack` makes for it.
abbrev pub packed : List Frame → Result (List ℕ)
packed [] = ok []
packed (f ∷ fs) = do
  head ← pack (header_of f) zeroed
  rest ← packed fs
  ok (slice head 0 header_size ++ (f.data_bytes ++ rest))

packed-file_of : (fs : List Frame) → packed fs ≡ ok (file_of fs)
unfolding pack write_bytes slice
packed-file_of [] = refl
packed-file_of (f ∷ fs) = rw (packed-file_of fs) refl

-- For at least one block, with lengths and checksums below 2 ^ 32, in a file where each is behind its packed header:
-- if a file of at least one byte can be mapped, `info` returns and lists the headers of all the blocks in order.
pub info-packed :
    (mmap_create : ℕ → Bool)
    → ((n : ℕ) → 0 < n → mmap_create n ≡ true)
    → (f : Frame) (fs : List Frame) → All IsSmall (f ∷ fs)
    → (packed (f ∷ fs) >>= info true mmap_create) ≡ ok (lines_of 0 (f ∷ fs))
unfolding info
info-packed mmap_create maps f fs small =
    let enough = length-file_of (f ∷ fs) in
    let mapped_lem : mmap_create (length (file_of (f ∷ fs))) ≡ true =
      maps _ (omega (arith, enough)) in
    ap (λ file. file >>= info true mmap_create) (packed-file_of (f ∷ fs))
    ∙ rw mapped_lem (
        info_loop-lines_of (f ∷ fs) (length (file_of (f ∷ fs)) + 1) [] 0 new_blank [] small
          (omega (arith, enough)))
