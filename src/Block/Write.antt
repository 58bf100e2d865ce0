-- ===== src/Block/Write.antt =====
-- Writing to a block, and reading from it.
use dach.Base.{
  ℕ, zero, suc, ◌+◌, ◌≤◌, ◌<◌, ◌^◌, ◌≡◌, refl, ap, ap₂, ◌%◌, sym, subst, lt→ltb, le→leb, true, ◌∙◌,
  arith, Array, put, Result, ok, leb, if◌then◌else◌, List, [], ◌∷◌, ◌++◌, length, none,
}
use mathlib.Core.List.{append_assoc, append-nil}
use dach.Block.{Mode, Block, block_new, is_writable, slice, write_loop, block_write, valid_thread}

-- A block that the thread `self` may use: without an error, with the position in the length, and
-- the length in the allocated memory.
pub record IsReady (self : ℕ) (b : Block) : Type 0 where
  pub no_error : b.err_no ≡ 0
  pub own : b.thread_id ≡ self
  pub pos_le : b.pos ≤ b.block_length
  pub room_le : b.block_length ≤ b.room

-- A new block to write, of at least one byte, is ready.
abbrev pub blank : (self : ℕ) (junk : Array) (size bid : ℕ) → Block
blank self junk size bid = record {
  id = bid;
  mode = Mode.writable;
  pos = 0;
  bytes_written = 0;
  bytes = junk;
  room = size;
  size = size;
  block_length = size;
  thread_id = self;
  err_no = 0;
}

pub block_new-blank :
    (self : ℕ) (junk : Array) (size bid : ℕ)
    → 0 < size
    → block_new self junk
        (record { init_length = size; bid = bid; init_mode = Mode.writable; source = none })
      ≡ ok (blank self junk size bid)
unfolding block_new
block_new-blank self junk size bid h = rw (lt→ltb 0 size h) refl

pub blank-IsReady :
    (self : ℕ) (junk : Array) (size bid : ℕ) → IsReady self (blank self junk size bid)
blank-IsReady self junk size bid = record {
  no_error = refl;
  own = refl;
  pos_le = omega arith;
  room_le = omega arith;
}

pub valid_thread_lem : {self : ℕ} {b : Block} → IsReady self b → valid_thread self b ≡ ok tt
unfolding valid_thread
valid_thread_lem r = rw (r.no_error, r.own) (ground arith)

pub slice-append : (a : Array) (i m n : ℕ) → slice a i (m + n) ≡ slice a i m ++ slice a (i + m) n
unfolding slice
slice-append a i zero n =
    let e : zero + n ≡ n = omega arith in let z : i + zero ≡ i = omega arith in rw (e, z)
slice-append a i (suc m) n =
    let e : suc m + n ≡ suc (m + n) = omega arith in
    let z : i + suc m ≡ i + 1 + m = omega arith in rw (e, z, slice-append a (i + 1) m n)

-- A store outside the slice does not change it.
pub slice-put : (a : Array) (j v i n : ℕ) → i + n ≤ j → slice (put a j v) i n ≡ slice a i n
unfolding slice
slice-put a j v i zero h = refl
slice-put a j v i (suc n) h = rw (slice-put a j v (i + 1) n (omega arith)) (ground arith)

pub slice-snoc : (a : Array) (v n : ℕ) → slice (put a n v) 0 (n + 1) ≡ slice a 0 n ++ (v ∷ [])
unfolding slice
slice-snoc a v n =
    let z : 0 + n ≡ n = omega arith in
    rw (slice-append (put a n v) 0 n 1, slice-put a n v 0 n (omega arith), z) (ground arith)

-- `result` is the block `b` with the bytes `buf` behind those before its position.
pub record Appended (self : ℕ) (b : Block) (buf : List ℕ) (result : Result Block) : Type 0 where
  pub out : Block
  pub returns : result ≡ ok out
  pub ready : IsReady self out
  pub writable : out.mode ≡ b.mode
  pub pos_lem : out.pos ≡ b.pos + length buf
  pub contents : slice out.bytes 0 out.pos ≡ slice b.bytes 0 b.pos ++ buf
  pub rest : (i : ℕ) → out.pos ≤ i → out.bytes i ≡ b.bytes i
  pub length_lem :
      out.block_length ≡ (if leb b.block_length out.pos then out.pos else b.block_length)
  pub count : out.bytes_written ≡ b.bytes_written + length buf

abbrev stored : Block → ℕ → Block
stored b c = record b {
  bytes = put b.bytes b.pos c;
  pos = b.pos + 1;
  bytes_written = b.bytes_written + 1;
}

module _ {self : ℕ} {b : Block} (r : IsReady self b) (c : ℕ) (cs : List ℕ)
    (inside : b.pos + 1 ≤ b.block_length) where
  write_loop-stored : write_loop self (c ∷ cs) b ≡ write_loop self cs (stored b c)
  unfolding write_loop
  write_loop-stored = ground (arith, r.room_le)

  stored-IsReady : IsReady self (stored b c)
  stored-IsReady = record {
    no_error = r.no_error;
    own = r.own;
    pos_le = inside;
    room_le = r.room_le;
  }

  stored-Appended :
      Appended self (stored b c) cs (write_loop self cs (stored b c))
      → Appended self b (c ∷ cs) (write_loop self (c ∷ cs) b)
  stored-Appended tail = record {
    out = tail.out;
    returns = write_loop-stored ∙ tail.returns;
    ready = tail.ready;
    writable = tail.writable;
    pos_lem = omega (arith, tail.pos_lem);
    contents = tail.contents ∙ rw (slice-snoc b.bytes c b.pos, append_assoc);
    rest = λ i h. ground (arith, tail.rest i h, tail.pos_lem);
    length_lem = tail.length_lem;
    count = omega (arith, tail.count);
  }

-- The loop, in a block with room for all of the bytes.
write_loop-Appended :
    (buf : List ℕ) {self : ℕ} {b : Block}
    → IsReady self b
    → b.pos + length buf ≤ b.block_length
    → Appended self b buf (write_loop self buf b)
write_loop-Appended [] {self} {b} r fits = record {
  out = b;
  returns = unfold write_loop in refl;
  ready = r;
  writable = refl;
  pos_lem = omega arith;
  contents = sym (append-nil (slice b.bytes 0 b.pos));
  rest = λ i h. refl;
  length_lem = ground (arith, r.pos_le);
  count = omega arith;
}
write_loop-Appended (c ∷ cs) {self} {b} r fits =
    stored-Appended r c cs (omega arith)
      (write_loop-Appended cs (stored-IsReady r c cs (omega arith)) (omega arith))

abbrev grown : Block → ℕ → Block
grown b end = if leb b.block_length end then record b { room = end; block_length = end } else b

grown-IsReady :
    {self : ℕ} {b : Block} (end : ℕ) → IsReady self b → b.pos ≤ end → IsReady self (grown b end)
grown-IsReady end r h = record {
  no_error = ground (arith, r.no_error);
  own = ground (arith, r.own);
  pos_le = ground (arith, r.pos_le);
  room_le = ground (arith, r.room_le);
}

-- Growing changes the length and the room only.
grown_lem :
    (b : Block) (end : ℕ)
    → ((grown b end).pos ≡ b.pos)
      × ((grown b end).bytes ≡ b.bytes)
      × ((grown b end).mode ≡ b.mode)
      × ((grown b end).bytes_written ≡ b.bytes_written)
      × ((grown b end).block_length ≡ (if leb b.block_length end then end else b.block_length))
grown_lem b end = (ground arith, ground arith, ground arith, ground arith, ground arith)

grown-Appended :
    {self : ℕ} {b : Block} {buf : List ℕ} {result : Result Block}
    → b.pos ≤ b.block_length
    → Appended self (grown b (b.pos + length buf)) buf result
    → Appended self b buf result
grown-Appended {b = b} {buf = buf} h a =
    let (same_pos, same_bytes, same_mode, same_count, new_length) =
      grown_lem b (b.pos + length buf) in
    record {
      out = a.out;
      returns = a.returns;
      ready = a.ready;
      writable = a.writable ∙ same_mode;
      pos_lem = a.pos_lem ∙ ap (λ p. p + length buf) same_pos;
      contents = a.contents ∙ ap₂ (λ bytes p. slice bytes 0 p ++ buf) same_bytes same_pos;
      rest = λ i h. a.rest i h ∙ ap (λ bytes. bytes i) same_bytes;
      length_lem = ground (arith, a.length_lem, a.pos_lem, same_pos, new_length);
      count = a.count ∙ ap (λ p. p + length buf) same_count;
    }

module _ {self : ℕ} {b : Block} (buf : List ℕ) (r : IsReady self b) (w : b.mode ≡ Mode.writable)
    (some_bytes : 0 < length buf) (small : b.pos + length buf < 2 ^ 64) where
  block_write-write_loop :
      {out : Block}
      → write_loop self buf (grown b (b.pos + length buf)) ≡ ok out
      → out.pos ≤ out.block_length
      → block_write self b buf ≡ ok out
  unfolding block_write
  block_write-write_loop {out} e le =
      let sum : (length buf + b.pos) % 2 ^ 64 ≡ b.pos + length buf = omega arith in
      let mode : is_writable b.mode ≡ true = rw w refl in
      rw
        (
          valid_thread_lem r,
          mode,
          sum,
          lt→ltb 0 (length buf) some_bytes,
          e,
          le→leb out.pos out.block_length le,
        )
        refl

  -- `block_write` puts at least one byte at the position of a writable block: it returns, the bytes
  -- before the position are those before and then the new ones, the bytes behind it are as they
  -- were, and the block has grown just as far as it had to.
  pub block_write-Appended : Appended self b buf (block_write self b buf)
  block_write-Appended =
      let a =
        write_loop-Appended buf (grown-IsReady (b.pos + length buf) r (omega arith))
          (ground arith) in
      let same = block_write-write_loop a.returns a.ready.pos_le in
      grown-Appended r.pos_le
        (subst (Appended self (grown b (b.pos + length buf)) buf) (a.returns ∙ sym same) a)
