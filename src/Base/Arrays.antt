-- ===== src/Base/Arrays.antt =====
-- A C array as a function from the index, with its accesses checked against its size.
use Prim.Native.Nat.{ℕ, ◌<◌}
use mathlib.Core.Path.{◌≡◌}
use native.Mathlib.Omega.{arith}
use dach.Base.Tests.{ltb, ◌==◌, if◌then◌else◌}
use dach.Base.Results.{Result, ok, err, overrun}

abbrev pub Array : Type 0
Array = ℕ → ℕ

-- `calloc`
abbrev pub zeroed : Array
zeroed _ = 0

abbrev pub put : Array → ℕ → ℕ → Array
put a i v j = if j == i then v else a j

-- `a[i]` and `a[i] = v` in an array of `size` entries.
module _ (size : ℕ) (a : Array) (i : ℕ) where
  abbrev pub load : Result ℕ
  load = if ltb i size then ok (a i) else err overrun

  abbrev pub store : ℕ → Result Array
  store v = if ltb i size then ok (put a i v) else err overrun

  pub load_lem : i < size → load ≡ ok (a i)
  load_lem h = ground arith

  pub store_lem : (v : ℕ) → i < size → store v ≡ ok (put a i v)
  store_lem v h = ground arith
