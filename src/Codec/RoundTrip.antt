-- ===== src/Codec/RoundTrip.antt =====
-- `decode` of an encoded file.
use dach.Base.{
  ℕ, suc, ◌+◌, ◌*◌, ◌^◌, ◌<◌, ◌≡◌, refl, ap, ◌∙◌, subst, inl, arith, false, lt→ltb, ◌==◌, All, List,
  [], ◌++◌, length, Result, ok, u32, ◌>>=◌,
}
use dach.Ppm0.{Ppm0, new}
use dach.Ppm0.Inv.{IsValid}
use dach.Ppm0.Init.{new-IsValid}
use dach.Ppm0.Api.{ppm0_api, ppm0_laws, IsValid-IsModel}
use dach.Ar64.State.{files, word_bytes, bytes_word}
use dach.Ar64.Words.{val, concat, words, bytes_word-word_bytes}
use dach.Ar64.Output.{out_of}
use dach.Ar64.Emit.{Emitted, shifted}
use dach.Ar64.Encode.{coding, Emitted-shifted}
use dach.Ar64.EncodeLoop.{pushed}
use dach.Ar64.Trace.{Traced, Stage, Stage-Traced}
use dach.Ar64.Worth.{worth, pushed-worth}
use dach.Ar64.DecodeRound.{Aligned, stepped}
use dach.Ar64.Stop.{stop_encoder-Stopped}
use dach.Ar64.Start.{Sent, start_decoder-Followed}
use dach.Ar64.Coder.{fresh, new_arcoder, stop_encoder, start_decoder}
use dach.Codec.{Coder, encode_file, encode_bytes, decode_file, decode_loop, written}
use dach.Codec.Encoding.{encode_bytes-AllEncoded}
use dach.Codec.Decoding.{decode_loop-Output}

-- `result` is a file of the length of the bytes and the words that carry the shifts `vs`.
record EncodedFile (bytes vs : List ℕ) (result : Result (List ℕ)) : Type 0 where
  chunks : List (List ℕ)
  sent : Sent (pushed 0 vs) (length vs) chunks
  returns : result ≡ ok (word_bytes (u32 (length bytes)) ++ words chunks)

module _ (self : ℕ) where
  encode_file-steps :
      {ppm : Ppm0} {arc arc' last : Coder} (bytes : List ℕ)
      → 0 < length bytes
      → new ≡ ok ppm
      → new_arcoder ppm0_api self ppm [] [] (length bytes) ≡ ok arc
      → encode_bytes self bytes arc ≡ ok arc'
      → stop_encoder ppm0_api self arc' ≡ ok last
      → encode_file self bytes ≡ ok (written last.io)
  unfolding encode_file
  encode_file-steps bytes some p q r s = rw (lt→ltb 0 (length bytes) some, p, q, r, s) refl

  decode_file-steps :
      {ppm : Ppm0} {arc arc' : Coder} {buf fd_out : List ℕ} (bytes : List ℕ)
      → new ≡ ok ppm
      → new_arcoder ppm0_api self ppm bytes [] 0 ≡ ok arc
      → start_decoder ppm0_api self arc ≡ ok arc'
      → decode_loop self (arc'.blocksize + 1) arc' [] [] ≡ ok (buf, fd_out)
      → decode_file self bytes ≡ ok (fd_out ++ buf)
  unfolding decode_file
  decode_file-steps bytes p q r s = rw (p, q, r, s) refl

  module _ (bytes : List ℕ) (some : 0 < length bytes) (few : length bytes < 2 ^ 27)
      (is_bytes : All (λ c. c < 256) bytes) (ppm : Ppm0) (made : new ≡ ok ppm)
      (v : IsValid 257 ppm) where
    new-Stage : Stage ppm0_api ppm0_laws ppm 257 0 0xFFFFFFFF
    new-Stage = record {
      counts = IsValid-IsModel v;
      interval = record { some_width = omega arith; high_lt = omega arith };
      normal = record { low_lt = omega arith; high_ge = omega arith; wide = inl (omega arith) };
      small = omega arith;
    }

    traced : Traced ppm0_api ppm0_laws ppm 257 0 0xFFFFFFFF bytes
    traced = Stage-Traced ppm0_api ppm0_laws bytes new-Stage is_bytes (omega arith)

    encoder : Coder
    encoder = fresh ppm0_api self ppm (files [] (word_bytes (u32 (length bytes)))) (length bytes)

    new_arcoder-encoder :
        new_arcoder ppm0_api self ppm [] [] (length bytes)
        ≡ ok (coding encoder ppm 257 0 0xFFFFFFFF (out_of encoder) 0 0 0)
    unfolding new_arcoder encoder
    new_arcoder-encoder =
        let proper : (ppm.scale == 0) ≡ false = ground (arith, v.total) in
        let sized : (length bytes == 0) ≡ false = ground arith in
        rw (proper, sized) (ap (λ n. ok (record encoder { scale = n })) v.total)

    first_Emitted :
        Emitted []
          (word_bytes (u32 (length bytes)))
          0
          0
          (shifted encoder (out_of encoder) 0 0 0xFFFFFFFF)
    unfolding encoder words val concat
    first_Emitted = record {
      bits = [];
      is_bits = tt;
      written = record {
        chunks = [];
        pending = [];
        full_words = tt;
        pending_bits = tt;
        file = refl;
        in_buffer = refl;
        room = refl;
        all_bits = refl;
      };
      size = refl;
      value = omega arith;
      count = refl;
    }

    encode_file-EncodedFile : EncodedFile bytes traced.vs (encode_file self bytes)
    unfolding encoder
    encode_file-EncodedFile =
        let a =
          encode_bytes-AllEncoded self encoder refl traced.trace (out_of encoder) 0 0 0
            (omega (arith, traced.few)) (omega arith) first_Emitted in
        let before = word_bytes (u32 (length bytes)) in
        let last =
          coding encoder a.model a.n a.low a.high a.out a.owed a.range (0 + length bytes) in
        let e = Emitted-shifted encoder last refl a.emitted a.low a.high in
        let s =
          stop_encoder-Stopped ppm0_api self last (omega arith) a.normal.low_lt refl e
            (omega (arith, traced.few)) in
        let count : 0 + length traced.vs ≡ length traced.vs = omega arith in
        let sent : Sent (pushed 0 traced.vs) (0 + length traced.vs) s.chunks = record {
          full_words = s.full_words;
          bits = e.bits;
          is_bits = e.is_bits;
          owed = a.owed;
          zeros = s.zeros;
          sent = s.sent;
          many = s.many;
          value = e.value;
          count = e.count;
        } in
        record {
          chunks = s.chunks;
          sent = rw count at sent;
          returns =
              encode_file-steps bytes some made new_arcoder-encoder a.returns s.returns
              ∙ ap (λ io. ok (written io)) s.file;
        }

    -- The decoder of the encoded file, behind the length.
    decoder : List (List ℕ) → Coder
    decoder chunks = record (fresh ppm0_api self ppm (files (words chunks) []) (length bytes)) {
      scale = 257;
    }

    new_arcoder-decoder :
        (chunks : List (List ℕ))
        → new_arcoder ppm0_api self ppm (word_bytes (u32 (length bytes)) ++ words chunks) [] 0
          ≡ ok (decoder chunks)
    unfolding new_arcoder decoder
    new_arcoder-decoder chunks =
        let proper : (ppm.scale == 0) ≡ false = ground (arith, v.total) in
        let same : u32 (length bytes) ≡ length bytes = omega arith in
        let size : bytes_word (word_bytes (u32 (length bytes))) ≡ length bytes =
          bytes_word-word_bytes (u32 (length bytes)) (omega arith) ∙ same in
        rw proper (
          ap (λ b. ok (fresh ppm0_api self ppm (files (words chunks) []) b)) size
          ∙ ap
              (λ n. ok (record (fresh ppm0_api self ppm (files (words chunks) []) (length bytes)) {
                scale = n;
              }))
              v.total)

    decode_file-EncodedFile :
        (chunks : List (List ℕ))
        → Sent (pushed 0 traced.vs) (length traced.vs) chunks
        → decode_file self (word_bytes (u32 (length bytes)) ++ words chunks) ≡ ok bytes
    unfolding decoder worth
    decode_file-EncodedFile chunks sent =
        let code : (pushed 0 traced.vs + 1) * 2 ^ 31 ≡ worth traced.vs =
          omega (arith, pushed-worth 0 traced.vs) in
        let f =
          start_decoder-Followed sent ppm0_api self (decoder chunks) refl refl refl refl refl in
        let d =
          decode_loop-Output self (decoder chunks) refl refl (omega arith) traced.trace
            (length bytes) f.esym' 0 0 [] [] some (omega arith) is_bytes (omega arith) (omega arith)
            (subst (Aligned [] f.inner' f.esym' (length traced.vs)) code f.aligned) in
        let fuel : length bytes + 1 ≡ suc (length bytes) = omega arith in
        decode_file-steps (word_bytes (u32 (length bytes)) ++ words chunks) made
          (new_arcoder-decoder chunks) f.returns
          (ap
              (λ n.
                decode_loop self n (stepped (decoder chunks) f.inner' f.esym' 0 0xFFFFFFFF) [] [])
              fuel
            ∙ d.returns)
        ∙ ap ok d.contents

  -- For every sequence of between 1 and 2 ^ 27 - 1 bytes, `encode` returns a file, and `decode`
  -- of that file returns, and gives back the bytes.
  pub decode_file-encode_file :
      (bytes : List ℕ)
      → 0 < length bytes
      → length bytes < 2 ^ 27
      → All (λ c. c < 256) bytes
      → (encode_file self bytes >>= decode_file self) ≡ ok bytes
  decode_file-encode_file bytes some few is_bytes =
      let (ppm, made, v, once) = new-IsValid in
      let e = encode_file-EncodedFile bytes some few is_bytes ppm made v in
      ap (λ r. r >>= decode_file self) e.returns
      ∙ decode_file-EncodedFile bytes some few is_bytes ppm made v e.chunks e.sent
