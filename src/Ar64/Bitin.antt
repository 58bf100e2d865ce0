-- ===== src/Ar64/Bitin.antt =====
-- `dach_bitin`: the bits come in the order in which the words hold them.
use Prim.Native.Nat.{bit_and}
use dach.Base.{
  ℕ, suc, ◌+◌, ◌*◌, ◌/◌, ◌^◌, ◌≤◌, ◌<◌, ◌≡◌, refl, ap, subst, sym, ◌∙◌, arith, ◌⊎◌, true, false,
  List, [], ◌∷◌, ◌++◌, length, Result, ok, u32, u64, ◌==◌, ◌||◌, ◌-◌,
}
use native.Mathlib.Decide.{ℕ_discrete}
use native.Mathlib.Nat.{pow-suc, one-le-pow, mul-le-mul_right}
use dach.Base.Bits.{top_bit}
use dach.Ar64.State.{Arc}
use dach.Ar64.Stream.{fill_word, bitin}
use dach.Ar64.Words.{IsBits, val, val-lt, pow_add}
use dach.Ar64.Input.{HasMore, In, in_of, with_in, Fed, Filled, fill_word-Filled}

-- `result` is the bit `b` and the coder with the bits `rest` to come.
pub record Took (output rest : List ℕ) (b : ℕ) {M : Type 0} (arc : Arc M)
    (result : Result (ℕ × Arc M)) : Type 0 where
  pub inner : In
  pub returns : result ≡ ok (b, with_in arc inner)
  pub fed : Fed output inner rest

-- The top bit of a word, and the word without it.
word_split :
    (b : ℕ) (bs : List ℕ) (pad : ℕ)
    → IsBits bs
    → length bs + suc pad ≡ 32
    → (val bs * 2 ^ pad < 2 ^ 31) × (val (b ∷ bs) * 2 ^ pad ≡ b * 2 ^ 31 + val bs * 2 ^ pad)
unfolding val
word_split b bs pad h e =
    let sum : length bs + pad ≡ 31 = omega arith in
    let size : 2 ^ length bs * 2 ^ pad ≡ 2 ^ 31 =
      rw (← pow_add (length bs) pad) (ap (λ (t : ℕ). 2 ^ t) sum) in
    let le : suc (val bs) * 2 ^ pad ≤ 2 ^ length bs * 2 ^ pad =
      mul-le-mul_right (2 ^ pad) (val-lt bs h) in
    (omega (arith, le, size, one-le-pow pad 2), omega (arith, ap (λ (t : ℕ). b * t) size))

module _ (self : ℕ) {M : Type 0} (arc : Arc M) {output : List ℕ} where
  bitin-pending :
      (b : ℕ) (bs tail : List ℕ) (pad : ℕ)
      → b < 2
      → IsBits bs
      → arc.io_buffer_full ≡ suc (length bs)
      → length bs + suc pad ≡ 32
      → arc.io_buffer ≡ val (b ∷ bs) * 2 ^ pad
      → HasMore arc.io arc.eof_in output tail ⊎ (tail ≡ [])
      → Took output (bs ++ tail) b arc (bitin self arc)
  unfolding bitin
  bitin-pending b bs tail pad hb hbs full padded buffer supply =
      let (small, split) = word_split b bs pad hbs padded in
      let word : arc.io_buffer ≡ b * 2 ^ 31 + val bs * 2 ^ pad = buffer ∙ split in
      let top : bit_and arc.io_buffer 0x80000000 / 2 ^ 31 ≡ b =
        rw (top_bit arc.io_buffer (omega (arith, word, small, hb)))
          (omega (arith, word, small, hb)) in
      let some_left : (arc.io_buffer_full == 0) ≡ false = ground arith in
      let is_bit : ((b == 0) || (b == 1)) ≡ true = ground arith in
      let less : arc.io_buffer_full - 1 ≡ length bs = omega arith in
      let rest : u32 (arc.io_buffer * 2) ≡ val bs * 2 ^ pad * 2 = omega (arith, word, small, hb) in
      record {
        inner = record {
          io = arc.io;
          eof_in = arc.eof_in;
          buffer = val bs * 2 ^ pad * 2;
          full = length bs;
          count = u64 (arc.total_bits_in + 1);
        };
        returns = rw (some_left, top, is_bit, rest, less) refl;
        fed = record {
          pending = bs;
          tail = tail;
          pad = suc pad;
          all_bits = refl;
          pending_bits = hbs;
          full_lem = refl;
          padded = padded;
          in_buffer = omega (arith, ap (λ (t : ℕ). val bs * t) (pow-suc 2 pad));
          supply = supply;
        };
      }

  bitin-Took_some :
      {b : ℕ} {rest : List ℕ} (f : Fed output (in_of arc) (b ∷ rest)) (p : List ℕ)
      → f.pending ≡ p
      → 1 ≤ arc.io_buffer_full
      → Took output rest b arc (bitin self arc)
  bitin-Took_some f [] e some_left = absurd (omega (arith, f.full_lem, ap (length {A = ℕ}) e))
  bitin-Took_some {b} {rest} f (q ∷ qs) e some_left =
      let (hq, hqs) = subst IsBits e f.pending_bits in
      let bits : b ∷ rest ≡ q ∷ (qs ++ f.tail) = f.all_bits ∙ ap (λ t. t ++ f.tail) e in
      let first : b ≡ q = cc in
      let others : rest ≡ qs ++ f.tail = cc in
      let size : length f.pending ≡ suc (length qs) = ap (length {A = ℕ}) e in
      rw (first, others)
        (bitin-pending q qs f.tail f.pad hq hqs (f.full_lem ∙ size) (omega (arith, f.padded, size))
          (f.in_buffer ∙ ap (λ t. val t * 2 ^ f.pad) e) f.supply)

module _ (self : ℕ) {M : Type 0} (arc : Arc M) (size : arc.io_buffer_size ≡ 32)
    {output : List ℕ} where
  bitin-fill_word :
      {rest : List ℕ} (full : arc.io_buffer_full ≡ 0)
      (r : Filled output rest arc (fill_word self arc))
      → bitin self arc ≡ bitin self (with_in arc r.inner)
  unfolding bitin
  bitin-fill_word full r =
      let some_left : (r.inner.full == 0) ≡ false = ground (arith, r.ready) in
      rw (r.returns, some_left) refl

  bitin-Took_none :
      {b : ℕ} {rest : List ℕ}
      → Fed output (in_of arc) (b ∷ rest)
      → arc.io_buffer_full ≡ 0
      → Took output rest b arc (bitin self arc)
  bitin-Took_none {b} {rest} f full = fill f.pending f.all_bits (f.full_lem)
    where
      fill :
          (p : List ℕ)
          → b ∷ rest ≡ p ++ f.tail
          → arc.io_buffer_full ≡ length p
          → Took output rest b arc (bitin self arc)
      fill (q ∷ qs) e l = absurd (omega arith)
      fill [] e l =
          let r =
            fill_word-Filled self arc size full f.tail (omega (arith, ap (length {A = ℕ}) e))
              f.supply in
          let t =
            bitin-Took_some self (with_in arc r.inner) (subst (Fed output r.inner) (sym e) r.fed) _
              refl (omega (arith, r.ready)) in
          record { inner = t.inner; returns = bitin-fill_word full r ∙ t.returns; fed = t.fed }

  -- `dach_bitin` takes the next bit, from the word or from the file.
  pub bitin-Took :
      {b : ℕ} {rest : List ℕ}
      → Fed output (in_of arc) (b ∷ rest)
      → Took output rest b arc (bitin self arc)
  bitin-Took f = elim (ℕ_discrete arc.io_buffer_full 0) [
    | yes e ↦ bitin-Took_none f e
    | no ne ↦ bitin-Took_some self arc f _ refl (omega arith)
  ]
