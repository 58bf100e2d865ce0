-- ===== src/Ar64/BitsEnding.antt =====
-- The encoder's output of bits ends, to any file or block.
use dach.Base.{
  ℕ, zero, suc, ◌+◌, ◌-◌, ◌*◌, ◌≤◌, ◌≡◌, refl, sym, subst, arith, ◌==◌, ==_iff, ◌||◌, u32, u64,
}
use dach.Base.Ends.{Ends, ok-Ends, bind-Ends, weaken-Ends, if-Ends, assert-Ends}
use dach.Ar64.State.{Io, Arc, write_word}
use dach.Ar64.Stream.{flush_word, bitout, flush_underflow, write_stream}
use dach.Ar64.Output.{Out}
use dach.Ar64.Emit.{shifted}

-- What a kind of output keeps, and what is known once a word went out to it.
pub record Writing (self : ℕ) (R : Io → Type 0) (W : Type 0) : Type 0 where
  pub write_word-Ends : (io : Io) (w : ℕ) → R io → Ends (λ io'. R io' × W) (write_word self io w)

-- An output with room for at most a word.
pub record IsOut (R : Io → Type 0) (o : Out) : Type 0 where
  pub kept : R o.io
  pub room : o.full ≤ 32

-- One bit more: there is less room, or a word went out.
pub record IsMore (R : Io → Type 0) (W : Type 0) (o o' : Out) : Type 0 where
  pub is_out : IsOut R o'
  pub less : 1 ≤ o.full → o'.full + 1 ≡ o.full
  pub went : o.full ≡ 0 → W

module _ (self : ℕ) {R : Io → Type 0} {W : Type 0} (writing : Writing self R W) {M : Type 0}
    (arc : Arc M) (size : arc.io_buffer_size ≡ 32) where
  module _ (low high : ℕ) where
    flush_word-Ends :
        (o : Out) (u : ℕ)
        → IsOut R o
        → Ends
            (λ arc'.
              (o' : Out) × (arc' ≡ shifted arc o' u low high)
              × R o'.io
              × (1 ≤ o'.full)
              × (o'.full ≤ 32)
              × (1 ≤ o.full → o'.full ≡ o.full)
              × (o.full ≡ 0 → W))
            (flush_word self (shifted arc o u low high))
    unfolding flush_word
    flush_word-Ends o u i =
        if-Ends _ (o.full == 0) _ _
          (λ e.
            let none : o.full ≡ 0 = (==_iff o.full 0).0 e in
            bind-Ends _ _ _ _ (writing.write_word-Ends o.io o.buffer i.kept) (λ io (kept, w).
              ok-Ends _ _ (
                record { io = io; buffer = 0; full = arc.io_buffer_size; count = o.count },
                refl,
                kept,
                omega arith,
                omega arith,
                (λ some_room. absurd (omega arith)),
                (λ _. w),
              )))
          (λ e.
            ok-Ends _ _
              (o, refl, i.kept, ground arith, i.room, (λ _. refl), (λ z. absurd (ground arith))))

    bitout-Ends :
        (o : Out) (u bit : ℕ)
        → IsOut R o
        → Ends
            (λ arc'. (o' : Out) × (arc' ≡ shifted arc o' u low high) × IsMore R W o o')
            (bitout self (shifted arc o u low high) bit)
    unfolding bitout
    bitout-Ends o u bit i =
        bind-Ends _ _ _ _ (flush_word-Ends o u i)
          (λ flushed (o', e, kept, some_room, room, same, w). ok-Ends _ _ (
            record {
              io = o'.io;
              buffer = u32 (u32 (o'.buffer * 2) + bit);
              full = o'.full - 1;
              count = u64 (o'.count + 1);
            },
            rw e refl,
            record {
              is_out = record { kept = kept; room = omega arith };
              less = λ h. (let s = same h in omega arith);
              went = w;
            },
          ))

    flush_underflow-Ends :
        (n : ℕ) (o : Out) (bit : ℕ)
        → IsOut R o
        → Ends
            (λ arc'.
              (o' : Out) × (arc' ≡ shifted arc o' 0 low high) × IsOut R o' × (n ≡ 0 → o' ≡ o))
            (flush_underflow self n (shifted arc o n low high) bit)
    unfolding flush_underflow
    flush_underflow-Ends zero o bit i = ok-Ends _ _ (o, refl, i, λ _. refl)
    flush_underflow-Ends (suc n) o bit i =
        bind-Ends _ _ _ _ (bitout-Ends o (suc n) bit i) (λ sent (o', e, more).
          let rest =
            weaken-Ends _
              (λ arc'.
                (o'' : Out) × (arc' ≡ shifted arc o'' 0 low high)
                × IsOut R o''
                × (suc n ≡ 0 → o'' ≡ o))
              (λ last (o'', e', j, s). (o'', e', j, λ z. absurd (omega arith)))
              (flush_underflow-Ends n o' bit more.is_out) in
          rw e rest)

    -- Behind the bit and those owed nothing is owed.
    pub write_stream-Ends :
        (o : Out) (u bit : ℕ)
        → IsOut R o
        → Ends
            (λ arc'.
              (o' : Out) × (arc' ≡ shifted arc o' 0 low high)
              × IsOut R o'
              × (u ≡ 0 → IsMore R W o o')
              × (o.full ≡ 0 → W))
            (write_stream self (shifted arc o u low high) bit)
    unfolding write_stream
    write_stream-Ends o u bit i = assert-Ends _ ((bit == 1) || (bit == 0)) _ (λ _.
        bind-Ends _ _ _ _ (bitout-Ends o u bit i) (λ sent (o', e, more).
          let rest =
            weaken-Ends _
              (λ arc'.
                (o'' : Out) × (arc' ≡ shifted arc o'' 0 low high)
                × IsOut R o''
                × (u ≡ 0 → IsMore R W o o'')
                × (o.full ≡ 0 → W))
              (λ last (o'', e', j, same).
                (o'', e', j, (λ z. subst (IsMore R W o) (sym (same z)) more), more.went))
              (flush_underflow-Ends u o' (1 - bit) more.is_out) in
          rw e rest))
