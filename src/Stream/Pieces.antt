-- ===== src/Stream/Pieces.antt =====
-- The bytes of the blocks of a table, and the pieces that a file is cut into.
use dach.Base.{
  ℕ, zero, suc, ◌+◌, ◌≤◌, ◌<◌, ◌≡◌, refl, ap, ◌∙◌, arith, Array, List, [], ◌∷◌, ◌++◌, length,
}
use dach.Block.{Block, slice}
use dach.Stream.{Dblock, mapped}

-- The bytes of a block, and those of a table of blocks.
abbrev pub contents : Block → List ℕ
contents b = slice b.bytes 0 b.block_length

abbrev pub pieces : List Dblock → List (List ℕ)
pieces [] = []
pieces (d ∷ ds) = contents d.obj ∷ pieces ds

-- What `f` makes of each piece, in turn.
abbrev pub each : (List ℕ → List ℕ) → List (List ℕ) → List ℕ
each f [] = []
each f (p ∷ ps) = f p ++ each f ps

abbrev pub joined : List Dblock → List ℕ
joined ds = each (λ p. p) (pieces ds)

-- Pieces of `size` each, but for the last one, which may be shorter.
abbrev pub IsCut : (size : ℕ) → List (List ℕ) → Type 0
IsCut size [] = Unit
IsCut size (p ∷ []) = (0 < length p) × (length p ≤ size)
IsCut size (p ∷ q ∷ ps) = (length p ≡ size) × IsCut size (q ∷ ps)

pub slice-shift : (a : Array) (p i n : ℕ) → slice (λ j. a (p + j)) i n ≡ slice a (p + i) n
unfolding slice
slice-shift a p i zero = refl
slice-shift a p i (suc n) =
    let e : p + i + 1 ≡ p + (i + 1) = omega arith in rw (slice-shift a p (i + 1) n, e) refl

slice-mapped-suc :
    (c : ℕ) (cs : List ℕ) (i n : ℕ) → slice (mapped (c ∷ cs)) (suc i) n ≡ slice (mapped cs) i n
unfolding slice
slice-mapped-suc c cs i zero = refl
slice-mapped-suc c cs i (suc n) =
    let e : suc i + 1 ≡ suc (i + 1) = omega arith in rw (e, slice-mapped-suc c cs (i + 1) n) refl

pub slice-mapped : (bytes : List ℕ) → slice (mapped bytes) 0 (length bytes) ≡ bytes
unfolding slice
slice-mapped [] = refl
slice-mapped (c ∷ cs) = ap (λ t. c ∷ t) (slice-mapped-suc c cs 0 (length cs) ∙ slice-mapped cs)
