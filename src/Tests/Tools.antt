-- ===== src/Tests/Tools.antt =====
-- The theorems on the search for strings, the commands and the database at concrete inputs.
use text.Mathlib.Text.{◌==◌ as str_eq}
use dach.Base.{
  ℕ, ◌+◌, ◌-◌, ◌<◌, ◌==◌, ◌≡◌, refl, arith, zeroed, Array, Result, ok, Bool, true, false,
  if◌then◌else◌, ltb, lt→ltb, List, [], ◌∷◌, length, ◌>>=◌, replicate, some,
}
use dach.Command.{Command, Settings, default_config, ArgsInfo, choose, main, get_arg}
use dach.Command.Dispatch.{Dispatched, main-Dispatched, Sought, get_arg-Sought}
use dach.Info.{info}
use dach.Info.Listing.{Frame, packed, lines_of, info-packed}
use Prim.Native.String.{String}
use dach.Fdb.{View, Filework, Row, Sqlite, State, sqlite_row, sqlite_done, io_md5}
use dach.Fdb.Hex.{IsText, io_md5-IsText}
use dach.Fdb.Work.{has_name, IsDatabase}

-- "abcabc": the match for position 3 is the first three bytes.
abbrev slab : Array
slab i = if ltb i 3 then i + b'a' else i - 3 + b'a'

abbrev exit_code : Command → Settings → Result ℕ
exit_code c dc = ok 0

abbrev arguments : ArgsInfo
arguments = record { file_arg = some "text"; threads_arg = some 2; block_size_arg = some 4096 }

main-Dispatched_example :
    Dispatched exit_code "encode"
      (choose arguments default_config)
      (main exit_code (some arguments) (some "encode"))
main-Dispatched_example = main-Dispatched exit_code arguments "encode"

get_arg-Sought_example :
    Sought str_eq
      ("dach" ∷ "--file" ∷ "text" ∷ [])
      "--file"
      (get_arg str_eq ("dach" ∷ "--file" ∷ "text" ∷ []) "--file")
get_arg-Sought_example = get_arg-Sought str_eq ("dach" ∷ "--file" ∷ "text" ∷ []) "--file"

-- A digest of 16 bytes.
abbrev sum : List ℕ → List ℕ
sum bytes = replicate 16 (length bytes)

io_md5-IsText_example : IsText (replicate 16 2) (io_md5 sum (some (7 ∷ 8 ∷ [])) zeroed)
io_md5-IsText_example = io_md5-IsText sum (7 ∷ 8 ∷ []) zeroed refl

-- A table in memory.
abbrev in_memory : Sqlite
in_memory = record {
  Db = List Row;
  prepare_exists = λ db. 0;
  bind_exists = λ db name. 0;
  step_exists = λ db name. if has_name db name then (sqlite_row, true) else (sqlite_done, false);
  bind_insert = λ db row. 0;
  step_insert = λ db row. if has_name db row.fname then (19, db) else (sqlite_done, row ∷ db);
}

inserted :
    (b : Bool) (db : List Row) (row : Row)
    → let r : ℕ × List Row = if b then (19, db) else (101, row ∷ db) in
      r.1 ≡ (if b then db else row ∷ db)
inserted true db row = refl
inserted false db row = refl

abbrev in_memory-IsDatabase : IsDatabase in_memory
in_memory-IsDatabase = record {
  rows = λ db. db;
  prepares = λ db. refl;
  binds = λ db name. refl;
  finds = λ db name. refl;
  binds_row = λ db row. refl;
  inserts = λ db row. inserted (has_name db row.fname) db row;
}

abbrev no_files : State (List Row)
no_files = record { db = []; file_count = 0; file_insert_count = 0 }

-- A buffer with the name of a file, and the view of a task that points to it.
abbrev one_view : View
one_view = record {
  buffers = λ address i. if i == 0 then b'a' else 0;
  contents = λ name. some (7 ∷ 8 ∷ []);
}

abbrev one_file : Filework
one_file = record { full_path = 0; pathlen = 1; fsize = 2 }

-- A file of two blocks, one of them empty.
abbrev frames : List Frame
frames =
    record { crc = 9; model = 1; data_bytes = 1 ∷ 2 ∷ [] }
    ∷ record { crc = 8; model = 1; data_bytes = [] }
    ∷ []

abbrev maps : ℕ → Bool
maps n = ltb 0 n

maps_some : (n : ℕ) → 0 < n → maps n ≡ true
maps_some n h = lt→ltb 0 n h

info-packed_example : (packed frames >>= info true maps) ≡ ok (lines_of 0 frames)
info-packed_example =
    info-packed maps maps_some (record { crc = 9; model = 1; data_bytes = 1 ∷ 2 ∷ [] })
      (record { crc = 8; model = 1; data_bytes = [] } ∷ [])
      ((omega arith, omega arith), ((omega arith, omega arith), tt))
