-- ===== src/Tests/Ending.antt =====
-- The theorems on the ends of the loops at concrete inputs.
use dach.Codec.Inverse.{IsInverse, encode_bytes-IsInverse}
use dach.Base.{ℕ, ◌%◌, ◌≡◌, refl, arith, zeroed, List, [], ◌∷◌, length, some, ◌>>=◌, Result}
use dach.Base.Ends.{Ends}
use dach.Ppm0.{Ppm0, new}
use dach.Ppm0.Inv.{IsValid}
use dach.Ppm0.Init.{new-IsValid}
use dach.Ppm0.Api.{ppm0_api}
use dach.Ar64.State.{Arc, files, word_bytes}
use dach.Ar64.Coder.{fresh, new_arcoder}
use dach.Ar64.EncodeEnding.{IsReady}
use dach.Stream.{Stream, new_stream}
use dach.Codec.{encode_bytes, encode_file, decode_file}
use dach.Codec.Ending.{decode_file-Ends}
use dach.Codec.EncodeEnding.{HasWords, encode_file-Ends}
use dach.Codec.Counting.{Counts, encode_bytes-Counts}
use dach.Codec.Worker.{non_thread_encode_stream, thread_encode_stream}
use dach.Codec.ReadOnly.{encode_stream-never_returns}

-- A file that says that it has five bytes, and holds a word that no encoder wrote.
abbrev broken : List ℕ
broken = 5 ∷ 0 ∷ 0 ∷ 0 ∷ 255 ∷ 255 ∷ 255 ∷ 255 ∷ []

decode_file-Ends_example : Ends (λ out. length out ≡ 5) (decode_file 0 broken)
decode_file-Ends_example = decode_file-Ends 0 broken (
  omega arith,
  (
    omega arith,
    (omega arith, (omega arith, (omega arith, (omega arith, (omega arith, (omega arith, tt)))))),
  ),
)

encode_file-Ends_example : Ends (λ out. length out % 4 ≡ 0) (encode_file 0 broken)
encode_file-Ends_example = encode_file-Ends 0 broken

abbrev started : Ppm0
started = new-IsValid.0

started-IsValid : IsValid 257 started
started-IsValid = new-IsValid.2

-- The coder of a file of three bytes.
abbrev coder : Arc Ppm0
coder = fresh ppm0_api 0 started (files [] (word_bytes 3)) 3

encode_bytes-Counts_example :
    Ends
      (λ arc'. IsReady HasWords arc' × Counts started 257 (7 ∷ 8 ∷ 7 ∷ []) arc'.model)
      (encode_bytes 0 (7 ∷ 8 ∷ 7 ∷ []) coder)
encode_bytes-Counts_example =
    encode_bytes-Counts 0 (7 ∷ 8 ∷ 7 ∷ []) coder
      (record { size = refl; is_out = record { kept = refl; room = omega arith } }) started-IsValid
      (omega arith, (omega arith, (omega arith, tt))) (omega arith)

encode_bytes-IsInverse_example :
    Ends
      (λ arc. IsInverse arc.model)
      (new >>= λ model. new_arcoder ppm0_api 0 model [] [] 3 >>= encode_bytes 0 (7 ∷ 8 ∷ 7 ∷ []))
encode_bytes-IsInverse_example =
    encode_bytes-IsInverse 0 (7 ∷ 8 ∷ 7 ∷ []) (omega arith, (omega arith, (omega arith, tt)))
      (omega arith)

abbrev two_blocks : Result Stream
two_blocks =
    new_stream 7 zeroed 0 0
      (record { file = some (1 ∷ 2 ∷ 3 ∷ []); mode_str = "r"; block_size = 2 })

encode_stream-never_returns_example :
    Ends (λ _. ⊥) (two_blocks >>= non_thread_encode_stream 7)
    × Ends (λ _. ⊥) (two_blocks >>= thread_encode_stream 7 zeroed)
encode_stream-never_returns_example =
    encode_stream-never_returns 7 zeroed 0 0 (1 ∷ 2 ∷ 3 ∷ []) 2 (omega arith) (omega arith)
      (omega arith) zeroed
