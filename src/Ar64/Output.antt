-- ===== src/Ar64/Output.antt =====
-- The encoder's bits: what went out, and what still stands in the word.
use dach.Base.{
  ℕ, zero, suc, ◌||◌, ◌+◌, ◌-◌, ◌*◌, ◌≤◌, ◌<◌, ◌≡◌, refl, ap, ◌∙◌, arith, List, [], ◌∷◌, ◌++◌,
  length, length-append, All, Result, ok, replicate, u32, u64, subst, ◌==◌, true,
}
use mathlib.Core.List.{append_assoc, append-nil}
use native.Mathlib.Decide.{ℕ_discrete}
use dach.Ar64.State.{Io, files, Arc, write_word}
use dach.Ar64.Stream.{flush_word, bitout, flush_underflow, write_stream}
use dach.Ar64.Words.{
  IsBits, val, val-lt_short, val-snoc, IsBits-append, IsWord, concat, words, concat-append,
  words-append, All-append,
}

-- The fields that output changes.
pub record Out : Type 0 where
  pub io : Io
  pub buffer : ℕ
  pub full : ℕ
  pub count : ℕ

module _ {M : Type 0} where
  abbrev pub out_of : Arc M → Out
  out_of arc = record {
    io = arc.io;
    buffer = arc.io_buffer;
    full = arc.io_buffer_full;
    count = arc.total_bits_out;
  }

  abbrev pub with_out : Arc M → Out → Arc M
  with_out arc o = record arc {
    io = o.io;
    io_buffer = o.buffer;
    io_buffer_full = o.full;
    total_bits_out = o.count;
  }

-- Behind what the file held before, `bits` went out in full words, but for the last ones.
pub record Written (input before : List ℕ) (o : Out) (bits : List ℕ) : Type 0 where
  pub chunks : List (List ℕ)
  pub pending : List ℕ
  pub full_words : All IsWord chunks
  pub pending_bits : IsBits pending
  pub file : o.io ≡ files input (before ++ words chunks)
  pub in_buffer : o.buffer ≡ val pending
  pub room : o.full + length pending ≡ 32
  pub all_bits : bits ≡ concat chunks ++ pending

-- `result` is `arc` but for its output, to which the bits `bits` went.
pub record Sent {M : Type 0} (input before bits : List ℕ) (arc : Arc M) (result : Result (Arc M))
    : Type 0 where
  pub out : Out
  pub returns : result ≡ ok (with_out arc out)
  pub written : Written input before out bits

module _ (self : ℕ) {M : Type 0} (arc : Arc M) {input before bits : List ℕ}
    (w : Written input before (out_of arc) bits) where
  -- The word goes out, and an empty one takes its place.
  module _ (size : arc.io_buffer_size ≡ 32) (full : arc.io_buffer_full ≡ 0) where
    emptied : Out
    emptied = record {
      io = files input (before ++ words (w.chunks ++ (w.pending ∷ [])));
      buffer = 0;
      full = 32;
      count = arc.total_bits_out;
    }

    flush_word-full : flush_word self arc ≡ ok (with_out arc emptied)
    unfolding flush_word write_word words emptied
    flush_word-full =
        rw
          (
            full,
            w.file,
            size,
            words-append w.chunks (w.pending ∷ []),
            append-nil,
            append_assoc,
            w.in_buffer,
          )
          refl

    emptied-Written : Written input before emptied bits
    unfolding emptied val concat
    emptied-Written = record {
      chunks = w.chunks ++ (w.pending ∷ []);
      pending = [];
      full_words =
          All-append IsWord w.chunks (w.pending ∷ []) w.full_words
            (record { full = omega (arith, w.room); bits = w.pending_bits }, tt);
      pending_bits = tt;
      file = refl;
      in_buffer = refl;
      room = refl;
      all_bits =
          w.all_bits
          ∙ rw (concat-append w.chunks (w.pending ∷ []), append-nil, append-nil w.pending) refl;
    }

  emptied-Sent :
      arc.io_buffer_size ≡ 32
      → arc.io_buffer_full ≡ 0
      → Sent input before bits arc (flush_word self arc)
  emptied-Sent size full = record {
    out = emptied size full;
    returns = flush_word-full size full;
    written = emptied-Written size full;
  }

  flush_word-room : 1 ≤ arc.io_buffer_full → flush_word self arc ≡ ok arc
  unfolding flush_word
  flush_word-room h = ground arith

  -- A bit joins the word, where it has room.
  module _ (b : ℕ) (hb : b < 2) (h : 1 ≤ arc.io_buffer_full) where
    joined : Out
    joined = record {
      io = arc.io;
      buffer = u32 (u32 (arc.io_buffer * 2) + b);
      full = arc.io_buffer_full - 1;
      count = u64 (arc.total_bits_out + 1);
    }

    bitout-room : bitout self arc b ≡ ok (with_out arc joined)
    unfolding bitout joined
    bitout-room = rw (flush_word-room h) refl

    joined-Written : Written input before joined (bits ++ (b ∷ []))
    unfolding joined val
    joined-Written = record {
      chunks = w.chunks;
      pending = w.pending ++ (b ∷ []);
      full_words = w.full_words;
      pending_bits = IsBits-append w.pending (b ∷ []) w.pending_bits (hb, tt);
      file = w.file;
      in_buffer = omega (
        arith,
        w.in_buffer,
        val-snoc w.pending b,
        val-lt_short 31 w.pending w.pending_bits (omega (arith, w.room)),
      );
      room = omega (arith, w.room, length-append w.pending (b ∷ []));
      all_bits =
          ap (λ t. t ++ (b ∷ [])) w.all_bits ∙ append_assoc (concat w.chunks) w.pending (b ∷ []);
    }

    joined-Sent : Sent input before (bits ++ (b ∷ [])) arc (bitout self arc b)
    joined-Sent = record { out = joined; returns = bitout-room; written = joined-Written }

module _ (self : ℕ) {M : Type 0} (arc : Arc M) {input before bits : List ℕ} (b : ℕ)
    (w : Written input before (out_of arc) bits) (size : arc.io_buffer_size ≡ 32) where
  bitout-full :
      (full : arc.io_buffer_full ≡ 0)
      → bitout self arc b ≡ bitout self (with_out arc (emptied self arc w size full)) b
  unfolding bitout
  bitout-full full =
      let e = emptied-Written self arc w size full in
      let room : 1 ≤ (emptied self arc w size full).full = unfold emptied in omega arith in
      rw
        (
          flush_word-full self arc w size full,
          flush_word-room self (with_out arc (emptied self arc w size full)) e room,
        )
        refl

  bitout-Sent_full :
      b < 2 → arc.io_buffer_full ≡ 0 → Sent input before (bits ++ (b ∷ [])) arc (bitout self arc b)
  bitout-Sent_full hb full =
      let e = emptied-Written self arc w size full in
      let room : 1 ≤ (emptied self arc w size full).full = unfold emptied in omega arith in
      let s = joined-Sent self (with_out arc (emptied self arc w size full)) e b hb room in
      record { out = s.out; returns = bitout-full full ∙ s.returns; written = s.written }

  -- A bit goes out, after a full word where there is one.
  bitout-Sent : b < 2 → Sent input before (bits ++ (b ∷ [])) arc (bitout self arc b)
  bitout-Sent hb = elim (ℕ_discrete arc.io_buffer_full 0) [
    | yes e ↦ bitout-Sent_full hb e
    | no ne ↦ joined-Sent self arc w b hb (omega arith)
  ]

-- `result` is `arc` but for its output, to which the bits `bits` went, and no underflow is left.
pub record Streamed {M : Type 0} (input before bits : List ℕ) (arc : Arc M)
    (result : Result (Arc M)) : Type 0 where
  pub out : Out
  pub returns : result ≡ ok (record (with_out arc out) { underflow = 0 })
  pub written : Written input before out bits

module _ (self : ℕ) {M : Type 0} {input before : List ℕ} where
  flush_underflow-Streamed :
      (n b : ℕ) (arc : Arc M) {bits : List ℕ}
      → b < 2
      → Written input before (out_of arc) bits
      → arc.io_buffer_size ≡ 32
      → arc.underflow ≡ n
      → Streamed input before (bits ++ replicate n b) arc (flush_underflow self n arc b)
  unfolding flush_underflow
  flush_underflow-Streamed zero b arc {bits} hb w size e = record {
    out = out_of arc;
    returns = ap (λ u. ok (record arc { underflow = u })) e;
    written = rw (append-nil bits) w;
  }
  flush_underflow-Streamed (suc n) b arc {bits} hb w size e =
      let s = bitout-Sent self arc b w size hb in
      let rest =
        flush_underflow-Streamed n b (record (with_out arc s.out) { underflow = n }) hb s.written
          size refl in
      record {
        out = rest.out;
        returns = rw s.returns rest.returns;
        written =
            subst (Written input before rest.out) (append_assoc bits (b ∷ []) (replicate n b))
              rest.written;
      }

  -- `dach_write_stream`: the bit goes out, and then its opposite as often as it was owed.
  pub write_stream-Streamed :
      (b : ℕ) (arc : Arc M) {bits : List ℕ}
      → b < 2
      → Written input before (out_of arc) bits
      → arc.io_buffer_size ≡ 32
      → Streamed input before
          (bits ++ (b ∷ replicate arc.underflow (1 - b)))
          arc
          (write_stream self arc b)
  unfolding write_stream
  write_stream-Streamed b arc {bits} hb w size =
      let s = bitout-Sent self arc b w size hb in
      let rest =
        flush_underflow-Streamed arc.underflow (1 - b) (with_out arc s.out) (omega arith) s.written
          size refl in
      let is_bit : ((b == 1) || (b == 0)) ≡ true = ground arith in
      record {
        out = rest.out;
        returns = rw (is_bit, s.returns) rest.returns;
        written =
            subst (Written input before rest.out)
              (append_assoc bits (b ∷ []) (replicate arc.underflow (1 - b))) rest.written;
      }
