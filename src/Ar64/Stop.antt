-- ===== src/Ar64/Stop.antt =====
-- `dach_stop_encoder` sends the middle of the last interval, and fills the last word with zeros.
use Prim.Native.Nat.{bit_and}
use dach.Base.{
  ℕ, zero, suc, ◌+◌, ◌-◌, ◌^◌, ◌≤◌, ◌<◌, ◌≡◌, refl, ap, sym, ◌∙◌, subst, arith, ◌==◌, true, false,
  List, [], ◌∷◌, ◌++◌, replicate, replicate-add, All, Result, ok, err, u32,
}
use mathlib.Core.List.{append_assoc, append-nil}
use native.Mathlib.Decide.{ℕ_discrete}
use dach.Base.Bits.{top_bit}
use dach.Model.{PpmApi}
use dach.Ar64.State.{Io, files, Arc, word_bytes, write_word}
use dach.Ar64.Stream.{bitout, flush_underflow, write_stream}
use dach.Ar64.Words.{IsWord, concat, words, concat-append, words-append, All-append}
use dach.Ar64.Output.{Out, with_out, Written, write_stream-Streamed}
use dach.Ar64.Emit.{Emitted}
use dach.Ar64.Coder.{fill_up, stop_encoder}

-- The coder with another output, and nothing owed.
abbrev pub drained : {M : Type 0} → Arc M → Out → Arc M
drained arc out = record (with_out arc out) { underflow = 0 }

abbrev full_of : {M : Type 0} → Result (Arc M) → ℕ
full_of (ok arc) = arc.io_buffer_full
full_of (err e) = 0

abbrev io_of : {M : Type 0} → Io → Result (Arc M) → Io
io_of io (ok arc) = arc.io
io_of io (err e) = io

module _ (self : ℕ) {M : Type 0} (arc : Arc M) (out : Out) where
  -- A zero takes one place of the word, if there is one.
  full_of-write_stream :
      1 ≤ out.full → full_of (write_stream self (drained arc out) 0) ≡ out.full - 1
  unfolding write_stream bitout flush_underflow
  full_of-write_stream h = let room : (out.full == 0) ≡ false = ground arith in rw room refl

  io_of-write_stream :
      {input before : List ℕ} (io : Io)
      → out.full ≡ 0
      → out.io ≡ files input before
      → io_of io (write_stream self (drained arc out) 0)
        ≡ files input (before ++ word_bytes out.buffer)
  unfolding write_stream bitout flush_underflow write_word
  io_of-write_stream io full file = rw (full, file) refl

-- `result` is the coder with `zeros` more zeros in its word, which is full.
record Padded (input before bits : List ℕ) {M : Type 0} (arc : Arc M) (result : Result (Arc M))
    : Type 0 where
  out : Out
  zeros : ℕ
  returns : result ≡ ok (drained arc out)
  written : Written input before out (bits ++ replicate zeros 0)
  full_lem : out.full ≡ 0

-- The coder has sent full words, which hold the bits.
pub record Flushed (input before bits : List ℕ) {M : Type 0} (result : Result (Arc M))
    : Type 0 where
  pub last : Arc M
  pub chunks : List (List ℕ)
  pub full_words : All IsWord chunks
  pub returns : result ≡ ok last
  pub file : last.io ≡ files input (before ++ words chunks)
  pub sent : bits ≡ concat chunks

module _ (api : PpmApi) (self : ℕ) (arc : Arc api.Model) where
  fill_up-suc :
      (fuel : ℕ) (out : Out) {next : Arc api.Model}
      → 1 ≤ out.full
      → write_stream self (drained arc out) 0 ≡ ok next
      → fill_up api self (suc fuel) (drained arc out) 0 ≡ fill_up api self fuel next 0
  unfolding fill_up
  fill_up-suc fuel out h e = let room : (out.full == 0) ≡ false = ground arith in rw (room, e) refl

module _ (api : PpmApi) (self : ℕ) (arc : Arc api.Model) (size : arc.io_buffer_size ≡ 32)
    {input before : List ℕ} where
  fill_up-full :
      (fuel : ℕ) (out : Out) {bits : List ℕ}
      → Written input before out bits
      → out.full ≡ 0
      → Padded input before bits arc (fill_up api self (suc fuel) (drained arc out) 0)
  unfolding fill_up
  fill_up-full fuel out {bits} w e = record {
    out = out;
    zeros = 0;
    returns = rw e refl;
    written = rw (append-nil bits) w;
    full_lem = e;
  }

  -- With a round of fuel for each free place and one more, the loop returns.
  fill_up-Padded :
      (fuel : ℕ) (out : Out) {bits : List ℕ}
      → Written input before out bits
      → out.full ≤ fuel
      → Padded input before bits arc (fill_up api self (suc fuel) (drained arc out) 0)
  fill_up-Padded zero out w le = fill_up-full zero out w (omega arith)
  fill_up-Padded (suc fuel) out {bits} w le = elim (ℕ_discrete out.full 0) [
    | yes e ↦ fill_up-full (suc fuel) out w e
    | no ne ↦
        let s = write_stream-Streamed self 0 (drained arc out) (omega arith) w size in
        let taken : s.out.full ≡ out.full - 1 =
          ap full_of (sym s.returns) ∙ full_of-write_stream self arc out (omega arith) in
        let rest = fill_up-Padded fuel s.out s.written (omega (arith, taken)) in
        record {
          out = rest.out;
          zeros = suc rest.zeros;
          returns = fill_up-suc api self arc (suc fuel) out (omega arith) s.returns ∙ rest.returns;
          written =
              subst (Written input before rest.out)
                (append_assoc bits (0 ∷ []) (replicate rest.zeros 0)) rest.written;
          full_lem = rest.full_lem;
        }
  ]

  -- One more zero sends a full word.
  write_stream-Flushed :
      (out : Out) {bits : List ℕ}
      → Written input before out bits
      → out.full ≡ 0
      → Flushed input before bits (write_stream self (drained arc out) 0)
  unfolding concat words
  write_stream-Flushed out {bits} w e =
      let s = write_stream-Streamed self 0 (drained arc out) (omega arith) w size in
      record {
        last = drained arc s.out;
        chunks = w.chunks ++ (w.pending ∷ []);
        full_words =
            All-append IsWord w.chunks (w.pending ∷ []) w.full_words
              (record { full = omega (arith, w.room, e); bits = w.pending_bits }, tt);
        returns = s.returns;
        file =
            ap (io_of arc.io) (sym s.returns)
            ∙ io_of-write_stream self arc out arc.io e w.file
            ∙ rw (words-append w.chunks (w.pending ∷ []), append-nil, append_assoc, w.in_buffer)
                refl;
        sent = w.all_bits ∙ rw (concat-append w.chunks (w.pending ∷ []), append-nil w.pending) refl;
      }

-- The coder has sent its bits, the middle of the interval, and zeros.
pub record Stopped (input before : List ℕ) (bits : List ℕ) (owed : ℕ) {M : Type 0}
    (result : Result (Arc M)) : Type 0 where
  pub last : Arc M
  pub chunks : List (List ℕ)
  pub full_words : All IsWord chunks
  pub returns : result ≡ ok last
  pub file : last.io ≡ files input (before ++ words chunks)
  pub zeros : ℕ
  pub sent : concat chunks ≡ bits ++ (1 ∷ replicate zeros 0)
  pub many : owed + 2 ≤ zeros

module _ (api : PpmApi) (self : ℕ) (arc : Arc api.Model) (all : arc.total_syms ≡ arc.blocksize)
    (lower : arc.low < 2 ^ 31) where
  stop_encoder-steps :
      {a b c d : Arc api.Model} (owed : ℕ)
      → u32 (arc.underflow + 1) ≡ owed
      → write_stream self (record arc { underflow = owed }) 1 ≡ ok a
      → write_stream self a 0 ≡ ok b
      → fill_up api self 33 b 0 ≡ ok c
      → write_stream self c 0 ≡ ok d
      → stop_encoder api self arc ≡ ok d
  unfolding stop_encoder
  stop_encoder-steps owed more p q r s =
      let done : (arc.total_syms == arc.blocksize) ≡ true = ground arith in
      let none : bit_and (u32 arc.low) 0x80000000 ≡ 0 = omega (arith, top_bit (u32 arc.low)) in
      rw (done, none, more, p, q, r) s

  module _ (size : arc.io_buffer_size ≡ 32) {input before : List ℕ} {P N : ℕ}
      (e : Emitted input before P N arc) (small : N + 1 < 2 ^ 32) where
    pub stop_encoder-Stopped : Stopped input before e.bits arc.underflow (stop_encoder api self arc)
    stop_encoder-Stopped =
        let first =
          write_stream-Streamed self 1 (record arc { underflow = suc arc.underflow }) (omega arith)
            e.written size in
        let second =
          write_stream-Streamed self 0 (drained arc first.out) (omega arith) first.written size in
        let pad =
          fill_up-Padded api self arc size 32 second.out second.written
            (omega (arith, second.written.room)) in
        let last = write_stream-Flushed api self arc size pad.out pad.written pad.full_lem in
        record {
          last = last.last;
          chunks = last.chunks;
          full_words = last.full_words;
          returns =
              stop_encoder-steps (suc arc.underflow) (omega (arith, e.count)) first.returns
                second.returns pad.returns last.returns;
          file = last.file;
          zeros = suc arc.underflow + suc pad.zeros;
          sent =
              sym last.sent
              ∙ rw
                  (
                    replicate-add {A = ℕ} (suc arc.underflow) (suc pad.zeros) 0,
                    append_assoc,
                    append_assoc,
                  )
                  refl;
          many = omega arith;
        }
