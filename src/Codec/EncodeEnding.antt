-- ===== src/Codec/EncodeEnding.antt =====
-- `encode` of any file ends, whatever its size, with whole words.
use dach.Base.{ℕ, ◌%◌, ◌≡◌, refl, arith, ltb, ◌==◌, not, List, [], ◌∷◌, length, length-append}
use dach.Base.Ends.{Ends, Any, ok-Ends, bind-Ends, if-Ends, assert-Ends}
use dach.Ppm0.{Ppm0}
use dach.Ppm0.Api.{ppm0_api}
use dach.Ppm0.Ending.{new-Ends}
use dach.Ar64.State.{Io, files, blocks, write_word, word_bytes}
use dach.Ar64.Coder.{new_arcoder}
use dach.Ar64.BitsEnding.{Writing}
use dach.Ar64.EncodeEnding.{IsReady, encode-Ends, stop_encoder-Ends}
use dach.Codec.{Coder, encode_bytes, encode_file, written}
use dach.Codec.Ending.{ppm0_EndsApi}

-- A file of whole words.
abbrev pub HasWords : Io → Type 0
HasWords (files input output) = length output % 4 ≡ 0
HasWords (blocks b) = ⊥

pub write_word-Writing : (self : ℕ) → Writing self HasWords (Unit {0})
unfolding write_word
write_word-Writing self = record { write_word-Ends = go }
  where
    go : (io : Io) (w : ℕ) → HasWords io → Ends (λ io'. HasWords io' × Unit) (write_word self io w)
    go (files input output) w h =
        ok-Ends _ _ (omega (arith, length-append {0} output (word_bytes w)), tt)
    go (blocks b) w h = absurd h

written-HasWords : (io : Io) → HasWords io → length (written io) % 4 ≡ 0
written-HasWords (files input output) h = h
written-HasWords (blocks b) h = absurd h

module _ (self : ℕ) where
  encode_bytes-Ends :
      (bytes : List ℕ) (arc : Coder)
      → IsReady HasWords arc
      → Ends (IsReady HasWords) (encode_bytes self bytes arc)
  unfolding encode_bytes
  encode_bytes-Ends [] arc r = ok-Ends _ _ r
  encode_bytes-Ends (c ∷ cs) arc r =
      bind-Ends _ _ _ _ (encode-Ends ppm0_api ppm0_EndsApi self (write_word-Writing self) arc c r)
        (λ arc' r'. encode_bytes-Ends cs arc' r')

  new_arcoder-Ends :
      (ppm : Ppm0) (blocksize : ℕ)
      → Ends (IsReady HasWords) (new_arcoder ppm0_api self ppm [] [] blocksize)
  unfolding new_arcoder
  new_arcoder-Ends ppm blocksize = assert-Ends _ (not (ppm.scale == 0)) _ (λ _.
      if-Ends _ (blocksize == 0) _ _
        (λ _.
          ok-Ends _ _ (record { size = refl; is_out = record { kept = refl; room = omega arith } }))
        (λ _.
          ok-Ends _ _
            (record { size = refl; is_out = record { kept = refl; room = omega arith } })))

  -- For every list of bytes, of any length, `encode` behind the mapping of its file ends: none of its loops runs out of the
  -- fuel that it is given. Where it returns, the file has whole words of four bytes.
  pub encode_file-Ends :
      (bytes : List ℕ) → Ends (λ out. length out % 4 ≡ 0) (encode_file self bytes)
  unfolding encode_file
  encode_file-Ends bytes =
      if-Ends _ (ltb 0 (length bytes)) _ _
        (λ _. bind-Ends Any _ _ _ new-Ends (λ ppm _.
          bind-Ends _ _ _ _ (new_arcoder-Ends ppm (length bytes)) (λ arc r.
            bind-Ends _ _ _ _ (encode_bytes-Ends bytes arc r) (λ arc' r'.
              bind-Ends _ _ _ _ (stop_encoder-Ends ppm0_api self (write_word-Writing self) arc' r')
                (λ last (kept, w). ok-Ends _ _ (written-HasWords last.io kept))))))
        (λ _. ok-Ends _ _ refl)
