-- ===== src/Header/RoundTrip.antt =====
-- Packing and unpacking a header.
use Prim.Native.Nat.{bit_or}
use dach.Base.{ℕ, ◌+◌, ◌*◌, ◌^◌, ◌<◌, ◌≡◌, arith, Array, ok, u32, ap₂, ◌>>=◌}
use dach.Base.Bits.{or_fields}
use dach.Header.{Header, bytes_of, write_bytes, pack, get_u32, unpack, write_hdr_u32, read_hdr_u32}

-- Reading back a number that was written in front of `header` gives its 32 bits.
pub read_hdr_u32-write_hdr_u32 :
    (header : Array) (w old : ℕ)
    → w < 2 ^ 32
    → (write_hdr_u32 header w >>= λ h. read_hdr_u32 h old) ≡ ok w
unfolding write_hdr_u32 read_hdr_u32 write_bytes
read_hdr_u32-write_hdr_u32 header w old h = ground arith

-- Four bytes joined by shifts are the number that they are the bytes of.
join_bytes :
    (w : ℕ)
    → w < 2 ^ 32
    → u32 (
        bit_or
          (bit_or (bit_or (bytes_of w 0) (bytes_of w 1 * 2 ^ 8)) (bytes_of w 2 * 2 ^ 16))
          (bytes_of w 3 * 2 ^ 24))
      ≡ w
join_bytes w h =
    rw
      (
        or_fields 8 (bytes_of w 0) (bytes_of w 1) (omega arith),
        or_fields 16 (bytes_of w 0 + bytes_of w 1 * 2 ^ 8) (bytes_of w 2) (omega arith),
        or_fields 24 (bytes_of w 0 + bytes_of w 1 * 2 ^ 8 + bytes_of w 2 * 2 ^ 16) (bytes_of w 3)
            (omega arith),
      )
      (omega arith)

-- Unpacking a packed header gives back every field but the model, which keeps its old value: the
-- bytes of the model are written and not read.
pub unpack-pack :
    (hdr old : Header) (packed : Array)
    → hdr.block_size < 2 ^ 32
    → hdr.crc < 2 ^ 32
    → (pack hdr packed >>= unpack old) ≡ ok (record hdr { model = old.model })
unfolding pack write_bytes unpack get_u32
unpack-pack hdr old packed hb hc =
    ap₂ (λ b c. ok (record hdr { block_size = b; crc = c; model = old.model }))
      (join_bytes hdr.block_size hb) (join_bytes hdr.crc hc)
