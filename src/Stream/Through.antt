-- ===== src/Stream/Through.antt =====
-- `dach_pipe_tofile` and a whole run of a pipe.
use dach.Base.{
  ℕ, zero, suc, ◌+◌, ◌-◌, ◌*◌, ◌^◌, ◌≤◌, ◌<◌, ◌≡◌, refl, ap, ◌∙◌, arith, Array, Result, ok, ◌>>=◌,
  ◌==◌, true, List, [], ◌∷◌, length, length-tabulate, tabulate, some, u32,
}
use dach.Block.{block_id, valid_thread}
use dach.Stream.{Dblock, Stream, blocks, new_stream}
use dach.Stream.Pipe.{
  Callback, pipe_new, pipe_add, thread_pipe, start_loop, pipe_start, tofile_loop, pipe_tofile,
  pipe_through,
}
use dach.Stream.Partition.{Counted, get_block_count-Counted}
use dach.Stream.Table.{in_at, out_at, opened, new_stream-opened}
use dach.Stream.Pieces.{pieces, each, IsCut}
use dach.Stream.Contents.{table_lem, in_at-IsFresh, out_at-IsFresh, few_blocks}
use dach.Stream.Run.{Computes, at_block, Matched, none_left, pair, AllRan, thread_pipe-AllRan}
use dach.Stream.Tofile.{all_rewound, tofile_loop-joined, start_loop-rest}

module _ (self : ℕ) (junk : Array) (junk_id junk_written : ℕ) (bytes : List ℕ) (block_size : ℕ)
    (c : Counted (length bytes) block_size) where
  block_id-in_at :
      (i : ℕ)
      → block_id self ((in_at self junk junk_id junk_written bytes block_size c i).obj) ≡ ok i
  unfolding block_id valid_thread
  block_id-in_at i = let own : (self == self) ≡ true = ground arith in rw own refl

  tabulate-Matched :
      (n i : ℕ)
      → Matched self block_size i
          (tabulate n i (in_at self junk junk_id junk_written bytes block_size c))
          (tabulate n i (out_at self junk junk_id junk_written bytes block_size c))
  tabulate-Matched zero i = none_left
  tabulate-Matched (suc n) i =
      pair (in_at-IsFresh self junk junk_id junk_written bytes block_size c i)
        (out_at-IsFresh self junk junk_id junk_written bytes block_size c i) refl (block_id-in_at i)
        (tabulate-Matched n (i + 1))

  base : Stream
  base = opened self junk junk_id junk_written bytes block_size c

  table : List Dblock
  table = tabulate (suc c.before) 0 (in_at self junk junk_id junk_written bytes block_size c)

  module _ (f : List ℕ → List ℕ) (op : Callback) (computes : Computes self block_size f op) where
    first_run :
        AllRan self base []
          (length table)
          (each f (pieces table))
          (thread_pipe self op (length table) base)
    unfolding base table
    first_run =
        let number =
          length-tabulate (suc c.before) 0
            (in_at self junk junk_id junk_written bytes block_size c) in
        thread_pipe-AllRan self block_size op f computes base refl [] []
          (tabulate-Matched (suc c.before) 0) refl refl (omega (arith, number))

    -- After the first operation the others find nothing.
    start_loop_lem :
        (ops : List Callback)
        → suc c.before < 2 ^ 32
        → start_loop self (op ∷ ops) base
          ≡ ok (at_block base base.block_count first_run.ins' first_run.outs')
    unfolding start_loop base table blocks
    start_loop_lem ops few =
        let number =
          length-tabulate (suc c.before) 0
            (in_at self junk junk_id junk_written bytes block_size c) in
        let all : u32 (suc c.before - 0) ≡ length table = omega (arith, number) in
        ap (λ n. thread_pipe self op n base >>= λ s. start_loop self ops s) all
        ∙ ap (λ r. r >>= λ s. start_loop self ops s) first_run.returns
        ∙ start_loop-rest self base first_run.ins' ops first_run.outs' refl

    tofile_lem :
        tofile_loop self base.block_count 0
          (at_block base base.block_count first_run.ins' first_run.outs')
          []
        ≡ ok (
          at_block base base.block_count first_run.ins' (all_rewound first_run.outs'),
          each f (pieces table),
        )
    unfolding base table
    tofile_lem =
        let number =
          length-tabulate (suc c.before) 0
            (in_at self junk junk_id junk_written bytes block_size c) in
        let all : suc c.before ≡ length first_run.outs' = omega (arith, number, first_run.number) in
        let s = at_block base base.block_count first_run.ins' first_run.outs' in
        ap (λ n. tofile_loop self n 0 s []) all
        ∙ tofile_loop-joined self base base.block_count first_run.ins' [] first_run.outs' []
            first_run.ready
        ∙ ap
            (λ fd.
              ok (at_block base base.block_count first_run.ins' (all_rewound first_run.outs'), fd))
            first_run.bytes_lem

    pipe_through-opened :
        (op2 : Callback)
        → suc c.before < 2 ^ 32
        → pipe_through self (ok base) op op2 ≡ ok (each f (pieces table))
    unfolding pipe_through pipe_new pipe_add pipe_start pipe_tofile
    pipe_through-opened op2 few = rw (start_loop_lem (op2 ∷ []) few, tofile_lem) refl

-- `result` is what `f` makes of the pieces of `block_size` that the bytes are cut into.
pub record IsThrough (block_size : ℕ) (f : List ℕ → List ℕ) (bytes : List ℕ)
    (result : Result (List ℕ)) : Type 0 where
  pub cut : List (List ℕ)
  pub is_cut : IsCut block_size cut
  pub whole : each (λ p. p) cut ≡ bytes
  pub returns : result ≡ ok (each f cut)

-- For a file of at least one byte and fewer than 2 ^ 32 blocks, and a first operation that makes `f` of the bytes of
-- every fresh block, a pipe with two operations writes what `f` makes of each piece of the file, in the order of the
-- pieces, all of the size of a block but for the last. The second operation has no effect.
pub pipe_through-IsThrough :
    (self : ℕ) (junk : Array) (junk_id junk_written : ℕ) (bytes : List ℕ) (block_size : ℕ)
    (f : List ℕ → List ℕ) (op op2 : Callback)
    → 0 < length bytes
    → 0 < block_size
    → length bytes ≤ (2 ^ 32 - 1) * block_size
    → Computes self block_size f op
    → IsThrough block_size f bytes (
        pipe_through self
          (new_stream self junk junk_id junk_written
            (record { file = some bytes; mode_str = "r"; block_size = block_size }))
          op
          op2)
unfolding base table
pipe_through-IsThrough self junk junk_id junk_written bytes block_size f op op2 some_bytes proper
      few computes =
    let c = get_block_count-Counted (length bytes) block_size some_bytes proper in
    let small = few_blocks self junk junk_id junk_written bytes block_size c few in
    let t = table_lem self junk junk_id junk_written bytes block_size c in
    record {
      cut = pieces (table self junk junk_id junk_written bytes block_size c);
      is_cut = t.1;
      whole = t.0;
      returns =
          ap (λ s. pipe_through self s op op2)
            (new_stream-opened self junk junk_id junk_written bytes block_size c proper some_bytes
              small)
          ∙ pipe_through-opened self junk junk_id junk_written bytes block_size c f op computes op2
              small;
    }
