-- ===== src/Stream/Run.antt =====
-- A run of a pipe: what the operation makes of each block goes to the file, in the order of the blocks.
use mathlib.Core.List.{append_assoc}
use dach.Base.{
  ℕ, suc, ◌+◌, ◌<◌, ◌≡◌, refl, ap, ap₂, sym, ◌∙◌, arith, Result, ok, err, overrun, lt→ltb, ◌==◌,
  false, All, List, [], ◌∷◌, ◌++◌, length, length-append, set_elem, get_elem?-append,
  set_elem-append, some, none,
}
use dach.Block.{Mode, Block, block_id}
use dach.Block.Write.{IsReady}
use dach.Stream.{Dblock, entry, Stream, new_block, new_write_block}
use dach.Stream.Pipe.{Callback, thread_pipe}
use dach.Stream.Pieces.{contents, pieces, each, joined}
use dach.Stream.Contents.{IsFresh}

-- `result` is a pair of blocks, the second of which holds `bytes`.
pub record Ran (self : ℕ) (bytes : List ℕ) (result : Result (Block × Block)) : Type 0 where
  pub source : Block
  pub target : Block
  pub returns : result ≡ ok (source, target)
  pub ready : IsReady self target
  pub contents_lem : contents target ≡ bytes

-- On fresh blocks of equal lengths up to `block_size` the operation writes what `f` makes of the bytes.
abbrev pub Computes : (self block_size : ℕ) → (List ℕ → List ℕ) → Callback → Type 0
Computes self block_size f callback =
    (in_blk out_blk : Block)
    → IsFresh self block_size Mode.readable in_blk
    → IsFresh self block_size Mode.writable out_blk
    → out_blk.block_length ≡ in_blk.block_length
    → Ran self (f (contents in_blk)) (callback in_blk out_blk)

pub entry-append : (xs ys : List Dblock) (d : Dblock) → entry (xs ++ (d ∷ ys)) (length xs) ≡ ok d
entry-append xs ys d =
    ap (λ e. elim e [ none ↦ err overrun | some x ↦ ok x ]) (get_elem?-append xs ys d)

entry_out-append :
    {i : ℕ} (xs ys : List Dblock) (d : Dblock) → length xs ≡ i → entry (xs ++ (d ∷ ys)) i ≡ ok d
entry_out-append xs ys d m = ap (λ j. entry (xs ++ (d ∷ ys)) j) (sym m) ∙ entry-append xs ys d

-- The stream `base` with other blocks, the first `i` of them returned.
abbrev pub at_block : Stream → ℕ → (ins outs : List Dblock) → Stream
at_block base i ins outs = record base {
  blocks_returned = i;
  dblock_array = ins;
  dblock_array_out = outs;
}

module _ (base : Stream) (valid : base.err_no ≡ 0) where
  pub new_block_lem :
      (ins rest outs : List Dblock) (d : Dblock)
      → length ins < base.block_count
      → new_block (at_block base (length ins) (ins ++ (d ∷ rest)) outs)
        ≡ ok (some (length ins), at_block base (length ins + 1) (ins ++ (d ∷ rest)) outs)
  unfolding new_block
  new_block_lem ins rest outs d h =
      let more : (length ins == base.block_count) ≡ false = ground arith in
      rw (valid, more, lt→ltb (length ins) base.block_count h, entry-append ins rest d) refl

module _ (self : ℕ) (callback : Callback) (base : Stream) (valid : base.err_no ≡ 0) where
  new_write_block_lem :
      (i : ℕ) (ins rest outs rest_out : List Dblock) (d o : Dblock)
      → length outs ≡ length ins
      → block_id self d.obj ≡ ok (length ins)
      → new_write_block self
          (at_block base i (ins ++ (d ∷ rest)) (outs ++ (o ∷ rest_out)))
          (length ins)
        ≡ ok (length ins)
  unfolding new_write_block
  new_write_block_lem i ins rest outs rest_out d o m id =
      rw (valid, entry-append ins rest d, id, entry_out-append outs rest_out o m) refl

  -- A round of `dach_thread_pipe`, in a stream that has run over the blocks `ins`.
  thread_pipe-suc :
      (n : ℕ) {b b' : Block} (ins rest outs rest_out : List Dblock) (d o : Dblock)
      → length ins < base.block_count
      → length outs ≡ length ins
      → block_id self d.obj ≡ ok (length ins)
      → callback d.obj o.obj ≡ ok (b, b')
      → thread_pipe self callback
          (suc n)
          (at_block base (length ins) (ins ++ (d ∷ rest)) (outs ++ (o ∷ rest_out)))
        ≡ thread_pipe self callback n (
            at_block base
              (length ins + 1)
              (ins ++ (record d { obj = b } ∷ rest))
              (outs ++ (record o { obj = b' } ∷ rest_out)))
  unfolding thread_pipe
  thread_pipe-suc n {b} {b'} ins rest outs rest_out d o h m id c =
      let out_set : set_elem (outs ++ (o ∷ rest_out)) (length ins) (record o { obj = b' })
          ≡ outs ++ (record o { obj = b' } ∷ rest_out) =
        ap (λ j. set_elem (outs ++ (o ∷ rest_out)) j (record o { obj = b' })) (sym m)
        ∙ set_elem-append outs rest_out o (record o { obj = b' }) in
      rw
        (
          new_block_lem base valid ins rest (outs ++ (o ∷ rest_out)) d h,
          new_write_block_lem (length ins + 1) ins rest outs rest_out d o m id,
          entry-append ins rest d,
          entry_out-append outs rest_out o m,
          c,
          set_elem-append ins rest d (record d { obj = b }),
          out_set,
        )
        refl

-- Blocks of the file from number `i` on, and the blocks to write for them.
pub data Matched (self block_size : ℕ) : (i : ℕ) (ds os : List Dblock) → Type 0 where
  none_left : {i : ℕ} → Matched self block_size i [] []
  pair :
      {i : ℕ} {ds os : List Dblock} {d o : Dblock}
      → IsFresh self block_size Mode.readable d.obj
      → IsFresh self block_size Mode.writable o.obj
      → o.obj.block_length ≡ d.obj.block_length
      → block_id self d.obj ≡ ok i
      → Matched self block_size (i + 1) ds os
      → Matched self block_size i (d ∷ ds) (o ∷ os)

-- `result` is the stream with the blocks `outs`, and then blocks that hold `bytes`.
pub record AllRan (self : ℕ) (base : Stream) (outs : List Dblock) (n : ℕ) (bytes : List ℕ)
    (result : Result Stream) : Type 0 where
  pub ins' : List Dblock
  pub outs' : List Dblock
  pub returns : result ≡ ok (at_block base base.block_count ins' (outs ++ outs'))
  pub number : length outs' ≡ n
  pub ready : All (λ d. IsReady self d.obj) outs'
  pub bytes_lem : joined outs' ≡ bytes

module _ (self block_size : ℕ) (callback : Callback) (f : List ℕ → List ℕ)
    (computes : Computes self block_size f callback) (base : Stream) (valid : base.err_no ≡ 0) where
  pub thread_pipe-AllRan :
      {i : ℕ} {ds os : List Dblock} (ins outs : List Dblock)
      → Matched self block_size i ds os
      → length ins ≡ i
      → length outs ≡ i
      → i + length ds ≡ base.block_count
      → AllRan self base outs
          (length ds)
          (each f (pieces ds))
          (thread_pipe self callback (length ds) (at_block base i (ins ++ ds) (outs ++ os)))
  unfolding thread_pipe
  thread_pipe-AllRan {i} ins outs none_left l m all =
      let at_end : i ≡ base.block_count = omega arith in
      record {
        ins' = ins ++ [];
        outs' = [];
        returns = ap (λ k. ok (at_block base k (ins ++ []) (outs ++ []))) at_end;
        number = refl;
        ready = tt;
        bytes_lem = refl;
      }
  thread_pipe-AllRan {i} ins outs (pair {ds = ds} {os} {d} {o} r w same id rest) l m all =
      let c = computes d.obj o.obj r w same in
      let d' : Dblock = record d { obj = c.source } in
      let o' : Dblock = record o { obj = c.target } in
      let step =
        ap
          (λ k.
            thread_pipe self callback (suc (length ds))
              (at_block base k (ins ++ (d ∷ ds)) (outs ++ (o ∷ os))))
          (sym l)
        ∙ thread_pipe-suc self callback base valid (length ds) ins ds outs os d o (omega arith)
            (m ∙ sym l) (id ∙ ap ok (sym l)) c.returns in
      let next =
        thread_pipe-AllRan (ins ++ (d' ∷ [])) (outs ++ (o' ∷ [])) rest
          (omega (arith, length-append ins (d' ∷ []))) (omega (arith, length-append outs (o' ∷ [])))
          (omega arith) in
      record {
        ins' = next.ins';
        outs' = o' ∷ next.outs';
        returns =
            step
            ∙ ap
                (λ k.
                  thread_pipe self callback (length ds)
                    (at_block base (k + 1) (ins ++ (d' ∷ ds)) (outs ++ (o' ∷ os))))
                l
            ∙ ap₂ (λ xs ys. thread_pipe self callback (length ds) (at_block base (i + 1) xs ys))
                (sym (append_assoc ins (d' ∷ []) ds)) (sym (append_assoc outs (o' ∷ []) os))
            ∙ next.returns
            ∙ ap (λ ys. ok (at_block base base.block_count next.ins' ys))
                (append_assoc outs (o' ∷ []) next.outs');
        number = ap suc next.number;
        ready = (c.ready, next.ready);
        bytes_lem = ap₂ (λ xs ys. xs ++ ys) c.contents_lem next.bytes_lem;
      }
