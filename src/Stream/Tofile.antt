-- ===== src/Stream/Tofile.antt =====
-- `dach_pipe_tofile` writes the blocks in turn, and operations behind the first do nothing.
use mathlib.Core.List.{append_assoc, append-nil}
use dach.Base.{
  ℕ, suc, ◌+◌, ◌-◌, ◌≡◌, refl, ap, ap₂, sym, ◌∙◌, arith, ok, ◌==◌, true, All, List, [], ◌∷◌, ◌++◌,
  length, length-append, set_elem-append, u32,
}
use dach.Block.{get_length}
use dach.Block.Write.{IsReady, valid_thread_lem}
use dach.Block.Copy.{length-slice, block_tofile_lem, block_seek-start}
use dach.Stream.{Dblock, Stream, blocks}
use dach.Stream.Pipe.{Callback, thread_pipe, start_loop, tofile_loop}
use dach.Stream.Pieces.{contents, joined}
use dach.Stream.Run.{at_block, entry-append}

-- The block at its start.
abbrev rewound : Dblock → Dblock
rewound d = record d { obj = record d.obj { pos = 0 } }

abbrev pub all_rewound : List Dblock → List Dblock
all_rewound [] = []
all_rewound (d ∷ ds) = rewound d ∷ all_rewound ds

module _ (self : ℕ) (base : Stream) (i : ℕ) (ins : List Dblock) where
  tofile_loop-suc :
      (n : ℕ) (before rest : List Dblock) (d : Dblock) (fd : List ℕ)
      → IsReady self d.obj
      → tofile_loop self (suc n) (length before) (at_block base i ins (before ++ (d ∷ rest))) fd
        ≡ tofile_loop self n
            (length before + 1)
            (at_block base i ins (before ++ (rewound d ∷ rest)))
            (fd ++ contents d.obj)
  unfolding tofile_loop get_length
  tofile_loop-suc n before rest d fd r =
      let r' : IsReady self (record d.obj { pos = 0 }) = record {
        no_error = r.no_error;
        own = r.own;
        pos_le = omega arith;
        room_le = r.room_le;
      } in
      let whole : (length (contents d.obj) == d.obj.block_length) ≡ true =
        ground (arith, length-slice d.obj.bytes 0 d.obj.block_length) in
      rw
        (
          entry-append before rest d,
          (block_seek-start 0 r).0 (omega arith),
          block_tofile_lem r',
          valid_thread_lem r',
          whole,
          set_elem-append before rest d (rewound d),
        )
        refl

  pub tofile_loop-joined :
      (before ds : List Dblock) (fd : List ℕ)
      → All (λ d. IsReady self d.obj) ds
      → tofile_loop self (length ds) (length before) (at_block base i ins (before ++ ds)) fd
        ≡ ok (at_block base i ins (before ++ all_rewound ds), fd ++ joined ds)
  unfolding tofile_loop
  tofile_loop-joined before [] fd r =
      ap (λ f. ok (at_block base i ins (before ++ []), f)) (sym (append-nil fd))
  tofile_loop-joined before (d ∷ ds) fd (r, rs) =
      let longer : length before + 1 ≡ length (before ++ (rewound d ∷ [])) =
        omega (arith, length-append before (rewound d ∷ [])) in
      tofile_loop-suc (length ds) before ds d fd r
      ∙ ap₂
          (λ k outs.
            tofile_loop self (length ds) k (at_block base i ins outs) (fd ++ contents d.obj))
          longer (sym (append_assoc before (rewound d ∷ []) ds))
      ∙ tofile_loop-joined (before ++ (rewound d ∷ [])) ds (fd ++ contents d.obj) rs
      ∙ ap₂ (λ outs f. ok (at_block base i ins outs, f))
          (append_assoc before (rewound d ∷ []) (all_rewound ds))
          (append_assoc fd (contents d.obj) (joined ds))

  blocks_lem :
      (outs : List Dblock)
      → base.err_no ≡ 0
      → blocks (at_block base i ins outs) ≡ ok (base.block_count - i)
  unfolding blocks
  blocks_lem outs e = rw e refl

module _ (self : ℕ) (base : Stream) (ins : List Dblock) where
  -- Operations behind the first find no block left.
  pub start_loop-rest :
      (ops : List Callback) (outs : List Dblock)
      → base.err_no ≡ 0
      → start_loop self ops (at_block base base.block_count ins outs)
        ≡ ok (at_block base base.block_count ins outs)
  unfolding start_loop thread_pipe
  start_loop-rest [] outs e = refl
  start_loop-rest (op ∷ ops) outs e =
      let left : u32 (base.block_count - base.block_count) ≡ 0 = omega arith in
      rw (blocks_lem self base base.block_count ins outs e, left) (start_loop-rest ops outs e)
