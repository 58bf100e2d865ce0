-- ===== src/Ar64/Start.antt =====
-- `dach_start_decoder` takes the first word, and is then in step with the code that was sent.
use dach.Base.{
  ℕ, zero, suc, ◌+◌, ◌-◌, ◌*◌, ◌^◌, ◌≤◌, ◌<◌, ◌≡◌, refl, ap, sym, ◌∙◌, subst, arith, false, List,
  [], ◌∷◌, ◌++◌, length, length-append, length-replicate, replicate, replicate-add, All, Result, ok,
  u32, inl,
}
use mathlib.Core.List.{append_assoc}
use native.Mathlib.Nat.{pow-suc, one-le-pow, mul-le-mul_left}
use dach.Model.{PpmApi}
use dach.Ar64.State.{files, Arc}
use dach.Ar64.Stream.{bitin}
use dach.Ar64.Words.{
  IsBits, IsBits-append, IsBits-replicate, IsWord, val, val-lt, val-append, val-replicate_zero,
  pow_add, concat, words,
}
use dach.Ar64.Input.{In, in_of, with_in, Fed}
use dach.Ar64.Bitin.{bitin-Took}
use dach.Ar64.DecodeLoop.{Followed}
use dach.Ar64.Coder.{start_loop, start_decoder}

-- `result` is the coder with the given code word, and the bits `back` to come.
record Started (output back : List ℕ) (esym : ℕ) {M : Type 0} (arc : Arc M)
    (result : Result (Arc M)) : Type 0 where
  inner : In
  returns : result ≡ ok (record (with_in arc inner) { esym = esym })
  fed : Fed output inner back

module _ (api : PpmApi) (self : ℕ) where
  start_loop-suc :
      {b esym : ℕ} (n : ℕ) (arc : Arc api.Model) (inner : In)
      → 2 * arc.esym + b ≡ esym
      → esym < 2 ^ 32
      → bitin self arc ≡ ok (b, with_in arc inner)
      → start_loop api self (suc n) arc
        ≡ start_loop api self n (record (with_in arc inner) { esym = esym })
  unfolding start_loop
  start_loop-suc {b} {esym} n arc inner e small took =
      let sum : u32 (u32 (arc.esym * 2) + b) ≡ esym = omega arith in rw (took, sum) refl

  start_loop-Started :
      (front : List ℕ) {back output : List ℕ} (arc : Arc api.Model)
      → IsBits front
      → arc.io_buffer_size ≡ 32
      → arc.esym * 2 ^ length front + val front < 2 ^ 32
      → Fed output (in_of arc) (front ++ back)
      → Started output back
          (arc.esym * 2 ^ length front + val front)
          arc
          (start_loop api self (length front) arc)
  unfolding val start_loop
  start_loop-Started [] arc h size small f =
      let same : arc.esym ≡ arc.esym * 1 + 0 = omega arith in
      record { inner = in_of arc; returns = ap (λ e. ok (record arc { esym = e })) same; fed = f }
  start_loop-Started (b ∷ bs) arc (hb, hbs) size small f =
      let t = bitin-Took self arc size f in
      let twice : (2 * arc.esym + b) * 2 ^ length bs + val bs
          ≡ arc.esym * 2 ^ suc (length bs) + (b * 2 ^ length bs + val bs) =
        omega (arith, ap (λ (t : ℕ). arc.esym * t) (pow-suc 2 (length bs))) in
      let at_least : (2 * arc.esym + b) * 1 ≤ (2 * arc.esym + b) * 2 ^ length bs =
        mul-le-mul_left (2 * arc.esym + b) (one-le-pow (length bs) 2 (omega arith)) in
      let next : 2 * arc.esym + b < 2 ^ 32 = omega (arith, at_least, twice, small) in
      let rest =
        start_loop-Started bs (record (with_in arc t.inner) { esym = 2 * arc.esym + b }) hbs size
          (rw twice small) t.fed in
      record {
        inner = rest.inner;
        returns =
            start_loop-suc (length bs) arc t.inner refl next t.returns
            ∙ rest.returns
            ∙ ap (λ e. ok (record (with_in arc rest.inner) { esym = e })) twice;
        fed = rest.fed;
      }

-- The first `n` of a list of bits, and the rest.
record Split (n : ℕ) (bits : List ℕ) : Type 0 where
  head : List ℕ
  rest : List ℕ
  whole : bits ≡ head ++ rest
  head_bits : IsBits head
  rest_bits : IsBits rest
  head_length : length head ≡ n

split : (n : ℕ) (bits : List ℕ) → IsBits bits → n ≤ length bits → Split n bits
split zero bits h le = record {
  head = [];
  rest = bits;
  whole = refl;
  head_bits = tt;
  rest_bits = h;
  head_length = refl;
}
split (suc n) [] h le = absurd (omega arith)
split (suc n) (b ∷ bs) (hb, hbs) le =
    let s = split n bs hbs (omega arith) in
    record {
      head = b ∷ s.head;
      rest = s.rest;
      whole = ap (λ t. b ∷ t) s.whole;
      head_bits = (hb, s.head_bits);
      rest_bits = s.rest_bits;
      head_length = ap suc s.head_length;
    }

-- What the encoder sent for the halves `P` in `k` shifts.
pub record Sent (P k : ℕ) (chunks : List (List ℕ)) : Type 0 where
  pub full_words : All IsWord chunks
  pub bits : List ℕ
  pub is_bits : IsBits bits
  pub owed : ℕ
  pub zeros : ℕ
  pub sent : concat chunks ≡ bits ++ (1 ∷ replicate zeros 0)
  pub many : owed + 2 ≤ zeros
  pub value : P + 1 ≡ (2 * val bits + 1) * 2 ^ owed
  pub count : k ≡ length bits + owed

module _ {P k : ℕ} {chunks : List (List ℕ)} (s : Sent P k chunks) where
  -- The bits that tell the code, a word more than the shifts.
  code_bits : List ℕ
  code_bits = s.bits ++ (1 ∷ replicate (31 + s.owed) 0)

  behind : ℕ
  behind = s.zeros + 1 - s.owed

  code_bits-IsBits : IsBits code_bits
  unfolding code_bits
  code_bits-IsBits =
      IsBits-append s.bits (1 ∷ replicate (31 + s.owed) 0) s.is_bits
        (omega arith, IsBits-replicate (31 + s.owed) 0 (omega arith))

  length-code_bits : length code_bits ≡ 32 + k
  unfolding code_bits
  length-code_bits = omega (
    arith,
    s.count,
    length-append s.bits (1 ∷ replicate (31 + s.owed) 0),
    length-replicate {A = ℕ} (31 + s.owed) 0,
  )

  val-code_bits : val code_bits ≡ (P + 1) * 2 ^ 31
  unfolding code_bits val
  val-code_bits =
      let len : length (replicate {A = ℕ} (31 + s.owed) 0) ≡ 31 + s.owed =
        length-replicate {A = ℕ} (31 + s.owed) 0 in
      rw
        (
          val-append s.bits (1 ∷ replicate (31 + s.owed) 0),
          val-replicate_zero (31 + s.owed),
          len,
          pow-suc 2 (31 + s.owed),
          pow_add 31 s.owed,
          s.value,
        )
        (omega arith)

  stream-code_bits : concat chunks ++ replicate 32 0 ≡ code_bits ++ replicate behind 0
  unfolding code_bits behind
  stream-code_bits =
      let all : s.zeros + 32 ≡ 31 + s.owed + (s.zeros + 1 - s.owed) = omega (arith, s.many) in
      rw (s.sent, append_assoc s.bits, append_assoc s.bits)
        (ap (λ (t : List ℕ). s.bits ++ (1 ∷ t))
          (sym (replicate-add {A = ℕ} s.zeros 32 0)
            ∙ ap (λ (n : ℕ). replicate n 0) all
            ∙ replicate-add {A = ℕ} (31 + s.owed) (s.zeros + 1 - s.owed) 0))

  -- `dach_start_decoder` on what the encoder sent.
  pub start_decoder-Followed :
      (api : PpmApi) (self : ℕ) (arc : Arc api.Model) {output : List ℕ}
      → arc.io ≡ files (words chunks) output
      → arc.eof_in ≡ false
      → arc.io_buffer ≡ 0
      → arc.io_buffer_size ≡ 32
      → arc.esym ≡ 0
      → Followed output arc.low arc.high k ((P + 1) * 2 ^ 31) arc (start_decoder api self arc)
  unfolding start_decoder val
  start_decoder-Followed api self arc {output} file open_in empty size fresh =
      let p = split 32 code_bits code_bits-IsBits (omega (arith, length-code_bits)) in
      let stream : concat chunks ++ replicate 32 0 ≡ p.head ++ (p.rest ++ replicate behind 0) =
        stream-code_bits
        ∙ ap (λ t. t ++ replicate behind 0) p.whole
        ∙ append_assoc p.head p.rest (replicate behind 0) in
      let rest_length : length p.rest ≡ k = omega (
        arith,
        length-code_bits,
        ap (length {A = ℕ}) p.whole,
        length-append p.head p.rest,
        p.head_length,
      ) in
      let code : val p.head * 2 ^ k + val p.rest ≡ (P + 1) * 2 ^ 31 = omega (
        arith,
        ap val p.whole,
        val-append p.head p.rest,
        ap (λ (n : ℕ). val p.head * 2 ^ n) rest_length,
        val-code_bits,
      ) in
      let fed : Fed output (in_of (record arc { io_buffer_full = 0 }))
          (p.head ++ (p.rest ++ replicate behind 0)) =
        record {
          pending = [];
          tail = p.head ++ (p.rest ++ replicate behind 0);
          pad = 32;
          all_bits = refl;
          pending_bits = tt;
          full_lem = refl;
          padded = refl;
          in_buffer = omega (arith, empty);
          supply = inl (record {
            chunks = chunks;
            full_words = s.full_words;
            file = file;
            not_ended = open_in;
            tail_lem = sym stream;
          });
        } in
      let none_yet : arc.esym * 2 ^ length p.head + val p.head ≡ val p.head =
        omega (arith, ap (λ (e : ℕ). e * 2 ^ length p.head) fresh) in
      let short : val p.head < 2 ^ 32 =
        subst (λ (n : ℕ). val p.head < 2 ^ n) p.head_length (val-lt p.head p.head_bits) in
      let started =
        start_loop-Started api self p.head (record arc { io_buffer_full = 0 }) p.head_bits size
          (rw none_yet short) fed in
      record {
        inner' = started.inner;
        esym' = val p.head;
        returns =
            ap (λ n. start_loop api self n (record arc { io_buffer_full = 0 })) (sym p.head_length)
            ∙ started.returns
            ∙ ap (λ e. ok (record (with_in arc started.inner) { esym = e })) none_yet;
        aligned = record {
          front = p.rest;
          back = replicate behind 0;
          front_bits = p.rest_bits;
          length_front = rest_length;
          fed = started.fed;
          code = code;
        };
      }
