-- ===== src/Tests/Coding.antt =====
-- The theorems on the coder and on whole files at concrete inputs.
use dach.Base.{ℕ, ◌+◌, ◌≡◌, refl, inl, arith, List, [], ◌∷◌, length, ok, ◌>>=◌}
use dach.Ppm0.{Ppm0}
use dach.Ppm0.Inv.{IsValid}
use dach.Ppm0.Init.{new-IsValid}
use dach.Ppm0.Api.{ppm0_api, ppm0_laws, IsValid-IsModel}
use dach.Ar64.State.{Arc, files, word_bytes}
use dach.Ar64.Words.{val, concat, words}
use dach.Ar64.Output.{out_of}
use dach.Ar64.Emit.{Emitted, shifted}
use dach.Ar64.EncodeLoop.{pushed}
use dach.Ar64.Narrow.{width}
use dach.Ar64.Encode.{Encoded, encode-Encoded}
use dach.Ar64.Trace.{Stage, Turn, Stage-Turn}
use dach.Ar64.Coder.{fresh, encode}
use dach.Codec.{encode_file, decode_file}
use dach.Codec.RoundTrip.{decode_file-encode_file}

abbrev text : List ℕ
text = b'b' ∷ b'a' ∷ b'n' ∷ b'a' ∷ b'n' ∷ b'a' ∷ []

decode_file-encode_file_example : (encode_file 0 text >>= decode_file 0) ≡ ok text
decode_file-encode_file_example =
    decode_file-encode_file 0 text (omega arith) (omega arith)
      (omega arith, (omega arith, (omega arith, (omega arith, (omega arith, (omega arith, tt))))))

abbrev started : Ppm0
started = new-IsValid.0

started-IsValid : IsValid 257 started
started-IsValid = new-IsValid.2

-- The coder of a file of six bytes.
abbrev coder : Arc Ppm0
coder = record (fresh ppm0_api 0 started (files [] (word_bytes 6)) 6) { scale = 257 }

started-Stage : Stage ppm0_api ppm0_laws started 257 0 0xFFFFFFFF
started-Stage = record {
  counts = IsValid-IsModel started-IsValid;
  interval = record { some_width = omega arith; high_lt = omega arith };
  normal = record { low_lt = omega arith; high_ge = omega arith; wide = inl (omega arith) };
  small = omega arith;
}

turn_of_b : Turn ppm0_api ppm0_laws started 257 0 0xFFFFFFFF 98
turn_of_b = Stage-Turn ppm0_api ppm0_laws 98 started-Stage (omega arith)

coder-Emitted : Emitted [] (word_bytes 6) 0 0 (shifted coder (out_of coder) 0 0 0xFFFFFFFF)
unfolding words val concat
coder-Emitted = record {
  bits = [];
  is_bits = tt;
  written = record {
    chunks = [];
    pending = [];
    full_words = tt;
    pending_bits = tt;
    file = refl;
    in_buffer = refl;
    room = refl;
    all_bits = refl;
  };
  size = refl;
  value = omega arith;
  count = refl;
}

encode-Encoded_example :
    Encoded []
      (word_bytes 6)
      (pushed 0 turn_of_b.vs)
      (0 + length turn_of_b.vs)
      turn_of_b.model
      258
      turn_of_b.low'
      turn_of_b.high'
      (width 0 0xFFFFFFFF)
      1
      coder
      (encode ppm0_api 0 coder 98)
encode-Encoded_example =
    encode-Encoded ppm0_api ppm0_laws 0 coder refl (out_of coder) 0 0 0 started-Stage turn_of_b
      (omega (arith, turn_of_b.few)) coder-Emitted
