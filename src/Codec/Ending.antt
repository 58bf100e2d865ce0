-- ===== src/Codec/Ending.antt =====
-- `decode` of any file ends: the program returns or stops at a fault, and its loops never run longer than the model
-- lets them.
use dach.Base.{
  ℕ, zero, suc, ◌+◌, ◌^◌, ◌<◌, ◌≡◌, refl, ◌∙◌, arith, ltb, ◌==◌, not, true, false, overrun, All,
  List, [], ◌∷◌, ◌++◌, length, length-append, take, drop, inl, inr, u8,
}
use native.Mathlib.Nat.{pow-suc, one-le-pow}
use dach.Base.Ends.{Ends, Any, ok-Ends, bind-Ends, if-Ends, check-Ends, assert-Ends}
use dach.Ppm0.{Ppm0}
use dach.Ppm0.Api.{ppm0_api}
use dach.Ppm0.Ending.{
  find_sym-Ends, chr_to_sym-Ends, sym_to_chr-Ends, cumfreq-Ends, update-Ends, new-Ends,
}
use dach.Ar64.State.{Arc, files, bytes_word}
use dach.Ar64.Coder.{fresh, new_arcoder}
use dach.Ar64.DecodeEnding.{EndsApi, IsNext, IsDecoded, decode-Ends, IsStarted, start_decoder-Ends}
use dach.Codec.{max_buf, decode_loop, decode_file}

pub ppm0_EndsApi : EndsApi ppm0_api
ppm0_EndsApi = record {
  find_sym-Ends = find_sym-Ends;
  chr_to_sym-Ends = chr_to_sym-Ends;
  sym_to_chr-Ends = sym_to_chr-Ends;
  cumfreq-Ends = cumfreq-Ends;
  update-Ends = update-Ends;
}

bytes_word-lt :
    (n : ℕ) (bytes : List ℕ) → All (λ c. c < 256) bytes → bytes_word (take n bytes) < 256 ^ n
bytes_word-lt zero bytes h = omega arith
bytes_word-lt (suc n) [] h = one-le-pow (suc n) 256 (omega arith)
bytes_word-lt (suc n) (b ∷ bs) (hb, hs) = omega (arith, bytes_word-lt n bs hs, pow-suc 256 n)

-- `left` characters are still to come.
record IsGoing (arc : Arc Ppm0) (left : ℕ) : Type 0 where
  going : arc.stop ≡ false
  rest : arc.total_syms + left ≡ arc.blocksize
  small : arc.blocksize < 2 ^ 32
  short : arc.high < 2 ^ 32

module _ (self : ℕ) where
  IsNext-IsGoing :
      {arc arc' : Arc Ppm0} {left : ℕ}
      → IsGoing arc (suc left)
      → IsNext arc arc'
      → IsGoing arc' left
  IsNext-IsGoing g n = record {
    going = n.stop ∙ g.going;
    rest = omega (arith, g.rest, n.counted, n.blocksize, g.small);
    small = omega (arith, n.blocksize, g.small);
    short = n.short;
  }

  -- The file and the buffer hold `n` bytes together.
  abbrev HasLength : ℕ → List ℕ × List ℕ → Type 0
  HasLength n (buf, fd_out) = length fd_out + length buf ≡ n

  decode_loop-stop :
      (arc : Arc Ppm0) (fuel : ℕ) (buf fd_out : List ℕ)
      → arc.stop ≡ true
      → Ends (HasLength (length fd_out + length buf)) (decode_loop self (suc fuel) arc buf fd_out)
  unfolding decode_loop
  decode_loop-stop arc fuel buf fd_out over =
      if-Ends _ arc.stop _ _ (λ _. ok-Ends _ _ refl) (λ e. absurd (ground arith))

  -- A round, up to the loop that follows it with one more byte.
  decode_loop-round :
      (n fuel : ℕ) (arc : Arc Ppm0) (buf fd_out : List ℕ)
      → arc.stop ≡ false
      → ((arc' : Arc Ppm0) (buf' fd_out' : List ℕ)
          → length fd_out' + length buf' ≡ length fd_out + length buf + 1
          → IsDecoded arc arc'
          → Ends (HasLength n) (decode_loop self fuel arc' buf' fd_out'))
      → Ends (HasLength n) (decode_loop self (suc fuel) arc buf fd_out)
  unfolding decode_loop
  decode_loop-round n fuel arc buf fd_out going rest =
      if-Ends _ arc.stop _ _ (λ over. absurd (ground arith))
        (λ _.
          bind-Ends (λ r. IsDecoded arc r.1) _ _ _ (decode-Ends ppm0_api ppm0_EndsApi self arc)
            (λ (c, arc') decoded.
              check-Ends _ (ltb (length buf) max_buf) overrun _ (λ x. cc)
                (λ _.
                  let buf' = buf ++ (u8 c ∷ []) in
                  let longer = length-append {0} buf (u8 c ∷ []) in
                  let joined = length-append {0} fd_out buf' in
                  if-Ends _ (length buf' == max_buf) _ _
                    (λ _. rest arc' [] (fd_out ++ buf') (omega (arith, longer, joined)) decoded)
                    (λ _. rest arc' buf' fd_out (omega (arith, longer)) decoded))))

  -- No round is left when all bytes have been returned.
  decode-none_left : {arc arc' : Arc Ppm0} → IsGoing arc 0 → IsDecoded arc arc' → ⊥
  decode-none_left g (inl (over, last)) = omega (arith, g.rest, g.small)
  decode-none_left g (inr n) = omega (arith, g.rest, g.small, n.some_left, n.counted)

  decode_loop-Ends :
      (left : ℕ) (arc : Arc Ppm0) (buf fd_out : List ℕ)
      → IsGoing arc left
      → length fd_out + length buf ≡ arc.total_syms
      → Ends (HasLength arc.blocksize) (decode_loop self (suc left) arc buf fd_out)
  decode_loop-Ends zero arc buf fd_out g count =
      decode_loop-round arc.blocksize zero arc buf fd_out g.going
        (λ arc' buf' fd_out' longer decoded. absurd (decode-none_left g decoded))
  decode_loop-Ends (suc k) arc buf fd_out g count =
      decode_loop-round arc.blocksize (suc k) arc buf fd_out g.going
        (λ arc' buf' fd_out' longer decoded. elim decoded [
          | inl (over, last) ↦
              let all : length fd_out' + length buf' ≡ arc.blocksize =
                omega (arith, g.rest, g.small) in
              rw (← all) (decode_loop-stop arc' k buf' fd_out' over)
          | inr n ↦ rw (← n.blocksize) (
              decode_loop-Ends k arc' buf' fd_out' (IsNext-IsGoing g n)
                (omega (arith, n.counted, g.rest, g.small)))
        ])

  new_arcoder-Ends :
      (ppm : Ppm0) (bytes : List ℕ)
      → Ends
          (λ arc.
            arc ≡ fresh ppm0_api self ppm (files (drop 4 bytes) []) (bytes_word (take 4 bytes)))
          (new_arcoder ppm0_api self ppm bytes [] 0)
  unfolding new_arcoder
  new_arcoder-Ends ppm bytes = assert-Ends _ (not (ppm.scale == 0)) _ (λ _. ok-Ends _ _ refl)

  -- For any file of bytes, valid or not, `decode` ends: none of its loops runs out of the fuel that it is given, and
  -- where it returns, it returns as many bytes as the first word of the file says.
  pub decode_file-Ends :
      (bytes : List ℕ)
      → All (λ c. c < 256) bytes
      → Ends (λ out. length out ≡ bytes_word (take 4 bytes)) (decode_file self bytes)
  unfolding decode_file
  decode_file-Ends bytes is_bytes = bind-Ends Any _ _ _ new-Ends (λ ppm _.
      bind-Ends _ _ _ _ (new_arcoder-Ends ppm bytes) (λ arc fresh_lem.
        bind-Ends (IsStarted ppm0_api self arc) _ _ _ (start_decoder-Ends ppm0_api self arc)
          (λ started (i, esym, e).
            let size = bytes_word (take 4 bytes) in
            let sized : started.blocksize ≡ size = rw (e, fresh_lem) refl in
            let g : IsGoing started started.blocksize = record {
              going = rw (e, fresh_lem) refl;
              rest = rw (e, fresh_lem) (omega arith);
              small = omega (arith, sized, bytes_word-lt 4 bytes is_bytes);
              short = rw (e, fresh_lem) (omega arith);
            } in
            let next : started.blocksize + 1 ≡ suc started.blocksize = omega arith in
            let looped : Ends (HasLength started.blocksize)
                (decode_loop self (started.blocksize + 1) started [] []) =
              rw next
                (decode_loop-Ends started.blocksize started [] [] g (rw (e, fresh_lem) refl)) in
            bind-Ends (HasLength started.blocksize) _ _ _ looped (λ (buf, fd_out) all.
              ok-Ends _ _ (omega (arith, all, sized, length-append {0} fd_out buf))))))
