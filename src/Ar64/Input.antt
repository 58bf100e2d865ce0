-- ===== src/Ar64/Input.antt =====
-- The decoder's bits: what stands in the word, what the file has, and the zeros behind its end.
use dach.Base.{
  ℕ, ◌+◌, ◌*◌, ◌^◌, ◌<◌, ◌≡◌, refl, ap, sym, arith, ◌⊎◌, inl, inr, Bool, true, false, ltb, List, [],
  ◌∷◌, ◌++◌, length, All, replicate, Result, ok,
}
use mathlib.Core.List.{append_assoc}
use dach.Ar64.State.{Io, files, Arc, read_word}
use dach.Ar64.Stream.{fill_word}
use dach.Ar64.Words.{
  IsBits, IsBits-replicate, val, IsWord, IsWord-lt, concat, words, val-replicate_zero,
  bytes_word-word_bytes,
}

-- Full words are left in the file, and a read past the end gives a word of zeros, once.
pub record HasMore (io : Io) (eof_in : Bool) (output tail : List ℕ) : Type 0 where
  pub chunks : List (List ℕ)
  pub full_words : All IsWord chunks
  pub file : io ≡ files (words chunks) output
  pub not_ended : eof_in ≡ false
  pub tail_lem : tail ≡ concat chunks ++ replicate 32 0

-- The fields that input changes.
pub record In : Type 0 where
  pub io : Io
  pub eof_in : Bool
  pub buffer : ℕ
  pub full : ℕ
  pub count : ℕ

module _ {M : Type 0} where
  abbrev pub in_of : Arc M → In
  in_of arc = record {
    io = arc.io;
    eof_in = arc.eof_in;
    buffer = arc.io_buffer;
    full = arc.io_buffer_full;
    count = arc.total_bits_in;
  }

  abbrev pub with_in : Arc M → In → Arc M
  with_in arc i = record arc {
    io = i.io;
    eof_in = i.eof_in;
    io_buffer = i.buffer;
    io_buffer_full = i.full;
    total_bits_in = i.count;
  }

-- The bits that the coder reads next.
pub record Fed (output : List ℕ) (i : In) (upcoming : List ℕ) : Type 0 where
  pub pending : List ℕ
  pub tail : List ℕ
  pub pad : ℕ
  pub all_bits : upcoming ≡ pending ++ tail
  pub pending_bits : IsBits pending
  pub full_lem : i.full ≡ length pending
  pub padded : length pending + pad ≡ 32
  pub in_buffer : i.buffer ≡ val pending * 2 ^ pad
  pub supply : HasMore i.io i.eof_in output tail ⊎ (tail ≡ [])

-- `result` is the coder with the bits `rest` to come.
pub record Filled (output rest : List ℕ) {M : Type 0} (arc : Arc M) (result : Result (Arc M))
    : Type 0 where
  pub inner : In
  pub returns : result ≡ ok (with_in arc inner)
  pub fed : Fed output inner rest
  pub ready : inner.full ≡ 32

module _ (self : ℕ) {M : Type 0} (arc : Arc M) (size : arc.io_buffer_size ≡ 32)
    (empty : arc.io_buffer_full ≡ 0) {output : List ℕ} where
  fill_word-end :
      arc.io ≡ files [] output
      → arc.eof_in ≡ false
      → Filled output (replicate 32 0) arc (fill_word self arc)
  unfolding fill_word read_word
  fill_word-end file open_in = record {
    inner = record {
      io = files [] output;
      eof_in = true;
      buffer = 0;
      full = 32;
      count = arc.total_bits_in;
    };
    returns = rw (empty, file, open_in, size) refl;
    fed = record {
      pending = replicate 32 0;
      tail = [];
      pad = 0;
      all_bits = refl;
      pending_bits = IsBits-replicate 32 0 (omega arith);
      full_lem = refl;
      padded = refl;
      in_buffer = omega (arith, val-replicate_zero 32);
      supply = inr refl;
    };
    ready = refl;
  }

  fill_word-chunk :
      (c : List ℕ) (cs : List (List ℕ))
      → IsWord c
      → All IsWord cs
      → arc.io ≡ files (words (c ∷ cs)) output
      → arc.eof_in ≡ false
      → Filled output (c ++ (concat cs ++ replicate 32 0)) arc (fill_word self arc)
  unfolding fill_word read_word words
  fill_word-chunk c cs w ws file open_in =
      let whole : ltb (length (words (c ∷ cs))) 4 ≡ false = ground arith in
      record {
        inner = record {
          io = files (words cs) output;
          eof_in = false;
          buffer = val c;
          full = 32;
          count = arc.total_bits_in;
        };
        returns =
            rw (empty, file, open_in, size, bytes_word-word_bytes (val c) (IsWord-lt w), whole)
              refl;
        fed = record {
          pending = c;
          tail = concat cs ++ replicate 32 0;
          pad = 0;
          all_bits = refl;
          pending_bits = w.bits;
          full_lem = sym w.full;
          padded = omega (arith, w.full);
          in_buffer = omega arith;
          supply = inl (record {
            chunks = cs;
            full_words = ws;
            file = refl;
            not_ended = refl;
            tail_lem = refl;
          });
        };
        ready = refl;
      }

  -- A word comes from the file while there is one to come.
  pub fill_word-Filled :
      (tail : List ℕ)
      → 0 < length tail
      → HasMore arc.io arc.eof_in output tail ⊎ (tail ≡ [])
      → Filled output tail arc (fill_word self arc)
  unfolding words concat
  fill_word-Filled tail more (inr e) = absurd (omega (arith, ap (length {A = ℕ}) e))
  fill_word-Filled tail more (inl h) = from_chunks h.chunks h.full_words h.file h.tail_lem
    where
      from_chunks :
          (cs : List (List ℕ))
          → All IsWord cs
          → arc.io ≡ files (words cs) output
          → tail ≡ concat cs ++ replicate 32 0
          → Filled output tail arc (fill_word self arc)
      from_chunks [] ws file e = rw e (fill_word-end file h.not_ended)
      from_chunks (c ∷ cs) (w, ws) file e =
          rw (e, append_assoc) (fill_word-chunk c cs w ws file h.not_ended)
