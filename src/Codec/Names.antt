-- ===== src/Codec/Names.antt =====
-- Encoding and decoding by name.
use dach.Base.{
  ℕ, ◌<◌, ◌^◌, ◌≡◌, same_bytes, same_bytes_refl, refl, true, ok, >>=-ok, if◌then◌else◌, List, [],
  ◌∷◌, ◌++◌, some, length, All,
}
use dach.Codec.{encode_file, decode_file}
use dach.Codec.Driver.{file_ext, System, strrchr, io_file_size, encode_named, decode_named}
use dach.Codec.RoundTrip.{decode_file-encode_file}

-- The last dot of an output name is that of the extension.
strrchr-append : (name : List ℕ) → strrchr (name ++ file_ext) ≡ some (name, file_ext)
strrchr-append [] = refl
strrchr-append (c ∷ cs) = rw (strrchr-append cs) refl

-- The system behind the encoding has the output under its name.
abbrev pub with_output : System → List ℕ → List ℕ → System
with_output sys name out = record sys {
  contents = λ n. if same_bytes n name then some out else sys.contents n;
}

-- `result` is a file under the name with the extension, from which `decode` gives the bytes under a name that ends in `.1`.
pub record Restored (self : ℕ) (sys : System) (fname bytes : List ℕ) : Type 0 where
  pub out : List ℕ
  pub encodes : encode_named sys self fname ≡ ok (fname ++ file_ext, out)
  pub decodes :
      decode_named (with_output sys (fname ++ file_ext) out) self (fname ++ file_ext)
      ≡ ok (fname ++ (b'.' ∷ b'1' ∷ []), bytes)

module _ (self : ℕ) (sys : System) (fname bytes : List ℕ) where
  encode_named_lem :
      (out : List ℕ)
      → sys.stat fname ≡ true
      → sys.contents fname ≡ some bytes
      → sys.opens (fname ++ file_ext) ≡ true
      → sys.maps (length bytes) ≡ true
      → encode_file self bytes ≡ ok out
      → encode_named sys self fname ≡ ok (fname ++ file_ext, out)
  unfolding encode_named io_file_size
  encode_named_lem out found readable writable mapped e =
      rw (found, readable, writable, mapped, e) refl

  decode_named_lem :
      (out : List ℕ)
      → sys.opens (fname ++ (b'.' ∷ b'1' ∷ [])) ≡ true
      → decode_file self out ≡ ok bytes
      → decode_named (with_output sys (fname ++ file_ext) out) self (fname ++ file_ext)
        ≡ ok (fname ++ (b'.' ∷ b'1' ∷ []), bytes)
  unfolding decode_named
  decode_named_lem out writable e =
      rw (same_bytes_refl (fname ++ file_ext), strrchr-append fname, writable, e) refl

  -- For a regular file of between 1 and 2 ^ 27 - 1 bytes that can be read and mapped, and names that can be written,
  -- `encode` writes a file under the name with the extension `.dch`, and where that is the contents of this name,
  -- `decode` of the name writes the bytes under the name with the extension `.1`.
  pub decode_named-encode_named :
      sys.stat fname ≡ true
      → sys.contents fname ≡ some bytes
      → sys.opens (fname ++ file_ext) ≡ true
      → sys.opens (fname ++ (b'.' ∷ b'1' ∷ [])) ≡ true
      → sys.maps (length bytes) ≡ true
      → 0 < length bytes
      → length bytes < 2 ^ 27
      → All (λ c. c < 256) bytes
      → Restored self sys fname bytes
  decode_named-encode_named found readable writable writable' mapped some_bytes few is_bytes =
      let (out, e, d) =
        >>=-ok (encode_file self bytes) _
          (decode_file-encode_file self bytes some_bytes few is_bytes) in
      record {
        out = out;
        encodes = encode_named_lem out found readable writable mapped e;
        decodes = decode_named_lem out writable' d;
      }
