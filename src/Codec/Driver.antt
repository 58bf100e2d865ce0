-- ===== src/Codec/Driver.antt =====
-- src/dach/dach.c: `encode` and `decode` with the names of their files, and src/dach/dach_io.c: the size of a file.
-- The memory that an output name is appended to starts with a zero, which C does not promise.
use dach.Base.{
  same_bytes, ℕ, ◌==◌, if◌then◌else◌, Bool, Result, ok, err, exits, assert, check, ◌>>=◌, ◌>>◌,
  List, [], ◌∷◌, ◌++◌, Option, some, none, length,
}
use dach.Codec.{encode_file, decode_file}

-- `const_file_ext`
abbrev pub file_ext : List ℕ
file_ext = b'.' ∷ b'd' ∷ b'c' ∷ b'h' ∷ []

-- The files that the program sees: what `stat` finds, the contents of the regular files that can be opened, the names
-- that can be opened for writing, and the sizes that can be mapped into memory.
pub record System : Type 0 where
  pub stat : List ℕ → Bool
  pub contents : List ℕ → Option (List ℕ)
  pub opens : List ℕ → Bool
  pub maps : ℕ → Bool

-- `strrchr` of the dot: what is in front of the last dot, and the rest from it on.
abbrev pub strrchr : List ℕ → Option (List ℕ × List ℕ)
strrchr [] = none
strrchr (c ∷ cs) = elim (strrchr cs) [
  | none ↦ if c == b'.' then some ([], c ∷ cs) else none
  | some (front, ext) ↦ some (c ∷ front, ext)
]

module _ (sys : System) where
  -- `dach_get_file_size`; `none` is the result -1.
  unfoldable pub get_file_size : List ℕ → Option ℕ
  get_file_size name = elim (sys.contents name) [ none ↦ none | some bytes ↦ some (length bytes) ]

  -- `dach_io_file_size` and `dach_io_file_exists`
  unfoldable pub io_file_size : List ℕ → Result (Option ℕ)
  io_file_size name = do assert (sys.stat name); ok (get_file_size name)

  -- `encode`: the name of the output and what is written to it.
  unfoldable pub encode_named : ℕ → List ℕ → Result (List ℕ × List ℕ)
  encode_named self fname = do
    fsize ← io_file_size fname
    let outfilename = fname ++ file_ext
    check (sys.opens outfilename) exits
    bytes ← elim (sys.contents fname) [ none ↦ err exits | some bytes ↦ ok bytes ]
    check (sys.maps (length bytes)) exits
    out ← encode_file self bytes
    ok (outfilename, out)

  -- `decode`: the extension of the name becomes `.1`.
  unfoldable pub decode_named : ℕ → List ℕ → Result (List ℕ × List ℕ)
  decode_named self fname = do
    bytes ← elim (sys.contents fname) [ none ↦ err exits | some bytes ↦ ok bytes ]
    (front, ext) ← elim (strrchr fname) [ none ↦ err exits | some parts ↦ ok parts ]
    check (same_bytes ext file_ext) exits
    let outfilename = front ++ (b'.' ∷ b'1' ∷ [])
    check (sys.opens outfilename) exits
    out ← decode_file self bytes
    ok (outfilename, out)
