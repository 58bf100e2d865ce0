-- ===== src/Stream/Contents.antt =====
-- A new stream holds the file, block by block.
use mathlib.Core.List.{append-nil}
use native.Mathlib.Decide.{dec_lt}
use native.Mathlib.Nat.{mul-le-mul_right}
use dach.Base.{
  ℕ, zero, suc, ◌+◌, ◌-◌, ◌*◌, ◌^◌, ◌≤◌, ◌<◌, ◌≡◌, refl, ap, ap₂, sym, ◌∙◌, arith, Array, Result,
  ok, All, List, ◌++◌, length, length-tabulate, tabulate, some,
}
use dach.Block.{Mode, Block, slice}
use dach.Block.Write.{IsReady, slice-append}
use dach.Block.Copy.{length-slice}
use dach.Stream.{Stream, mapped, new_stream, blocks}
use dach.Stream.Partition.{Counted, get_block_count-Counted}
use dach.Stream.Table.{length_at, in_at, out_at, opened, new_stream-opened}
use dach.Stream.Pieces.{contents, pieces, each, joined, IsCut, slice-shift, slice-mapped}

-- A block of a new stream: of the thread, and with at least one byte, but no more than `block_size`.
pub record IsFresh (self block_size : ℕ) (m : Mode) (b : Block) : Type 0 where
  pub ready : IsReady self b
  pub mode_lem : b.mode ≡ m
  pub start : b.pos ≡ 0
  pub nonempty : 0 < b.block_length
  pub bounded : b.block_length ≤ block_size

-- `result` is a stream whose blocks hold the bytes in turn, with a block to write for each.
pub record Partitioned (self : ℕ) (bytes : List ℕ) (block_size : ℕ) (result : Result Stream)
    : Type 0 where
  pub stream : Stream
  pub returns : result ≡ ok stream
  pub left : blocks stream ≡ ok (length stream.dblock_array)
  pub whole : joined stream.dblock_array ≡ bytes
  pub cut : IsCut block_size (pieces stream.dblock_array)
  pub to_read : All (λ d. IsFresh self block_size Mode.readable d.obj) stream.dblock_array
  pub to_write : All (λ d. IsFresh self block_size Mode.writable d.obj) stream.dblock_array_out
  pub same_number : length stream.dblock_array_out ≡ length stream.dblock_array

pub All-tabulate :
    {A : Type 0} (P : A → Type 0) (f : ℕ → A)
    → ((i : ℕ) → P (f i))
    → (n i : ℕ) → All P (tabulate n i f)
All-tabulate P f h zero i = tt
All-tabulate P f h (suc n) i = (h i, All-tabulate P f h n (i + 1))

module _ {size block_size : ℕ} (c : Counted size block_size) where
  length_at-last : (i : ℕ) → i ≡ c.before → length_at c i ≡ c.last
  length_at-last i e = ground arith

  length_at-before : (i : ℕ) → i < c.before → length_at c i ≡ block_size
  length_at-before i h = ground arith

  length_at-pos : (i : ℕ) → 0 < length_at c i
  length_at-pos i = ground (arith, c.last_pos, c.last_le)

  length_at-le : (i : ℕ) → length_at c i ≤ block_size
  length_at-le i = ground (arith, c.last_le)

module _ (self : ℕ) (junk : Array) (junk_id junk_written : ℕ) (bytes : List ℕ)
    (block_size : ℕ) where
  module _ (c : Counted (length bytes) block_size) where
    contents-in_at :
        (i n : ℕ)
        → length_at c i ≡ n
        → contents ((in_at self junk junk_id junk_written bytes block_size c i).obj)
          ≡ slice (mapped bytes) (i * block_size) n
    contents-in_at i n e =
        let z : i * block_size + 0 ≡ i * block_size = omega arith in
        slice-shift (mapped bytes) (i * block_size) 0 (length_at c i)
        ∙ ap₂ (λ p m. slice (mapped bytes) p m) z e

    joined-tabulate :
        (n i : ℕ)
        → i + n ≡ c.before
        → joined (tabulate (suc n) i (in_at self junk junk_id junk_written bytes block_size c))
          ≡ slice (mapped bytes) (i * block_size) (n * block_size + c.last)
    joined-tabulate zero i e =
        let z : c.last ≡ zero * block_size + c.last = omega arith in
        append-nil (contents ((in_at self junk junk_id junk_written bytes block_size c i).obj))
        ∙ contents-in_at i c.last (length_at-last c i (omega arith))
        ∙ ap (λ m. slice (mapped bytes) (i * block_size) m) z
    joined-tabulate (suc n) i e =
        let next : (i + 1) * block_size ≡ i * block_size + block_size = omega arith in
        let size : block_size + (n * block_size + c.last) ≡ suc n * block_size + c.last =
          omega arith in
        ap₂ (λ xs ys. xs ++ ys) (contents-in_at i block_size (length_at-before c i (omega arith)))
          (joined-tabulate n (i + 1) (omega arith)
            ∙ ap (λ p. slice (mapped bytes) p (n * block_size + c.last)) next)
        ∙ sym (slice-append (mapped bytes) (i * block_size) block_size (n * block_size + c.last))
        ∙ ap (λ m. slice (mapped bytes) (i * block_size) m) size

    tabulate-IsCut :
        (n i : ℕ)
        → i + n ≡ c.before
        → IsCut block_size
            (pieces (tabulate (suc n) i (in_at self junk junk_id junk_written bytes block_size c)))
    tabulate-IsCut zero i e =
        let l =
          length-slice ((in_at self junk junk_id junk_written bytes block_size c i).obj.bytes) 0
            (length_at c i) in
        (omega (arith, l, length_at-pos c i), omega (arith, l, length_at-le c i))
    tabulate-IsCut (suc n) i e =
        let l =
          length-slice ((in_at self junk junk_id junk_written bytes block_size c i).obj.bytes) 0
            (length_at c i) in
        (l ∙ length_at-before c i (omega arith), tabulate-IsCut n (i + 1) (omega arith))

    pub table_lem :
        (each
            (λ p. p)
            (pieces
              (tabulate (suc c.before) 0 (in_at self junk junk_id junk_written bytes block_size c)))
          ≡ bytes)
        × IsCut block_size (
            pieces
              (tabulate (suc c.before) 0 (in_at self junk junk_id junk_written bytes block_size c)))
    table_lem =
        let start : 0 * block_size ≡ 0 = omega arith in
        (
          joined-tabulate c.before 0 (omega arith)
              ∙ ap₂ (λ p n. slice (mapped bytes) p n) start c.total
              ∙ slice-mapped bytes,
          tabulate-IsCut c.before 0 (omega arith),
        )

    pub in_at-IsFresh :
        (i : ℕ)
        → IsFresh self block_size Mode.readable
            ((in_at self junk junk_id junk_written bytes block_size c i).obj)
    in_at-IsFresh i = record {
      ready = record { no_error = refl; own = refl; pos_le = omega arith; room_le = omega arith };
      mode_lem = refl;
      start = refl;
      nonempty = length_at-pos c i;
      bounded = length_at-le c i;
    }

    pub out_at-IsFresh :
        (i : ℕ)
        → IsFresh self block_size Mode.writable
            ((out_at self junk junk_id junk_written bytes block_size c i).obj)
    out_at-IsFresh i = record {
      ready = record { no_error = refl; own = refl; pos_le = omega arith; room_le = omega arith };
      mode_lem = refl;
      start = refl;
      nonempty = length_at-pos c i;
      bounded = length_at-le c i;
    }

    opened-Partitioned :
        {result : Result Stream}
        → result ≡ ok (opened self junk junk_id junk_written bytes block_size c)
        → Partitioned self bytes block_size result
    unfolding blocks
    opened-Partitioned e = record {
      stream = opened self junk junk_id junk_written bytes block_size c;
      returns = e;
      left = ap ok (
          omega (
            arith,
            length-tabulate (suc c.before) 0
                (in_at self junk junk_id junk_written bytes block_size c),
          ));
      whole = table_lem.0;
      cut = table_lem.1;
      to_read =
          All-tabulate (λ d. IsFresh self block_size Mode.readable d.obj)
            (in_at self junk junk_id junk_written bytes block_size c) (in_at-IsFresh) (suc c.before)
            0;
      to_write =
          All-tabulate (λ d. IsFresh self block_size Mode.writable d.obj)
            (out_at self junk junk_id junk_written bytes block_size c) (out_at-IsFresh)
            (suc c.before) 0;
      same_number =
          length-tabulate (suc c.before) 0
            (out_at self junk junk_id junk_written bytes block_size c)
          ∙ sym (
              length-tabulate (suc c.before) 0
                (in_at self junk junk_id junk_written bytes block_size c));
    }

  pub few_blocks :
      (c : Counted (length bytes) block_size)
      → length bytes ≤ (2 ^ 32 - 1) * block_size
      → suc c.before < 2 ^ 32
  few_blocks c few = elim (dec_lt (suc c.before) (2 ^ 32)) [
    | yes h ↦ h
    | no h ↦ absurd (
        omega (
          arith,
          c.total,
          c.last_pos,
          mul-le-mul_right {m = 2 ^ 32 - 1} {n = c.before} block_size (omega arith),
        ))
  ]

  -- For a file of at least one byte and fewer than 2 ^ 32 blocks, `dach_stream_new` returns a stream. Its blocks
  -- hold the file in turn, all of `block_size` bytes but for the last, which has at least one byte and no more than
  -- that. There is a block to write for each of them, and none is returned yet.
  pub new_stream-Partitioned :
      0 < length bytes
      → 0 < block_size
      → length bytes ≤ (2 ^ 32 - 1) * block_size
      → Partitioned self bytes block_size (
          new_stream self junk junk_id junk_written
            (record { file = some bytes; mode_str = "r"; block_size = block_size }))
  new_stream-Partitioned some_bytes proper few =
      let c = get_block_count-Counted (length bytes) block_size some_bytes proper in
      opened-Partitioned c (
        new_stream-opened self junk junk_id junk_written bytes block_size c proper some_bytes
          (few_blocks c few))
