-- ===== src/Fdb.antt =====
-- src/fdb/fdb_impl.c: the database of files and their digests. The database and the digest are those of sqlite and
-- OpenSSL, given by what the program sees of them.
pub mod Hex
pub mod Work
pub mod Walk
pub mod Tree
pub mod Visits
pub mod Main
pub mod Exit
pub mod Whole
use dach.Base.{
  ℕ, zero, suc, ◌+◌, ◌-◌, ◌*◌, ◌/◌, ◌%◌, Array, store, Result, ok, err, overrun, assert, check,
  ◌>>=◌, ◌>>◌, ltb, leb, ◌==◌, ◌||◌, if◌then◌else◌, Bool, true, false, not, List, [], ◌∷◌, Option,
  some, none,
}
use dach.Block.{slice}

-- `hexchars[nib]`
abbrev pub hexchar : ℕ → ℕ
hexchar nib = if ltb nib 10 then nib + 48 else nib + 87

-- `buf` of `sql_insert_file`
abbrev pub buf_len : ℕ
buf_len = 40

-- The last loop of `io_md5`, over the bytes of the digest.
unfoldable pub hex_loop : List ℕ → ℕ → Array → Result Array
hex_loop [] n out = ok out
hex_loop (nib ∷ c) n out = do
  out ← store buf_len out n (hexchar (nib / 16))
  out ← store buf_len out (n + 1) (hexchar (nib % 16))
  hex_loop c (n + 2) out

-- `io_md5` of a file that can be opened and has these bytes, or of one that cannot. `none` is the result -1.
unfoldable pub io_md5 : (List ℕ → List ℕ) → Option (List ℕ) → Array → Result (Option Array)
io_md5 md5 none out = ok none
io_md5 md5 (some bytes) out = do
  out ← hex_loop (md5 bytes) 0 out
  out ← store buf_len out 32 0
  ok (some out)

-- `filework`; its `db` is the database of the state. `full_path` is the address of a buffer of the walk, which the walk
-- writes again for its next file.
pub record Filework : Type 0 where
  pub full_path : ℕ
  pub pathlen : ℕ
  pub fsize : ℕ

-- What a task sees: the buffers by their addresses, and the contents of the files that can be opened. A task that the
-- walk overtakes with a write is not modelled, but one that runs behind the write is.
pub record View : Type 0 where
  pub buffers : ℕ → Array
  pub contents : List ℕ → Option (List ℕ)

-- The size of a buffer.
abbrev pub path_room : ℕ
path_room = 8192

-- The string from `i` on, up to its zero, in the given number of bytes.
unfoldable pub string_at : ℕ → Array → ℕ → Result (List ℕ)
string_at zero a i = err overrun
string_at (suc n) a i = elim (a i == 0) [
  | true ↦ ok []
  | false ↦ (do rest ← string_at n a (i + 1); ok (a i ∷ rest))
]

-- The text that `sqlite3_bind_text` gets: as many bytes of the buffer as the path had when the task was pushed.
unfoldable pub bound_path : View → Filework → Result (List ℕ)
bound_path view fw = do
  check (leb fw.pathlen path_room) overrun
  ok (slice (view.buffers fw.full_path) 0 fw.pathlen)

-- A row of `fdb_files`.
pub record Row : Type 0 where
  pub fname : List ℕ
  pub row_size : ℕ
  pub md5_full : List ℕ

-- What the program uses of sqlite, with the result codes of the calls. After a step of the query a text of the first
-- column is there or not; `bind_insert` stands for the three bindings of an insertion, and gives the first result code
-- that is not 0.
pub record Sqlite : Type 1 where
  pub Db : Type 0
  pub prepare_exists : Db → ℕ
  pub bind_exists : Db → List ℕ → ℕ
  pub step_exists : Db → List ℕ → ℕ × Bool
  pub bind_insert : Db → Row → ℕ
  pub step_insert : Db → Row → ℕ × Db

abbrev pub sqlite_ok : ℕ
sqlite_ok = 0

abbrev pub sqlite_row : ℕ
sqlite_row = 100

abbrev pub sqlite_done : ℕ
sqlite_done = 101

-- The two counters of the file, and the database.
pub record State (Db : Type 0) : Type 0 where
  pub db : Db
  pub file_count : ℕ
  pub file_insert_count : ℕ

-- What `sql_file_exists` makes of the step of its query.
abbrev pub answer : ℕ × Bool → Result Bool
answer (rc, text) =
    if (rc == sqlite_done) || (rc == sqlite_row)
    then ok text
    else (if not (rc == sqlite_ok) then assert false >> ok false else ok false)

module _ (sql : Sqlite) (md5 : List ℕ → List ℕ) where
  -- `sql_file_exists`. A failed call other than the step stops at an assertion, and so does a step that fails.
  unfoldable pub sql_file_exists : View → sql.Db → Filework → Result Bool
  sql_file_exists view db fw = do
    l ← string_at path_room (view.buffers fw.full_path) 0
    assert (sql.prepare_exists db == sqlite_ok)
    name ← bound_path view fw
    assert (sql.bind_exists db name == sqlite_ok)
    answer (sql.step_exists db name)

  -- `sql_insert_file`. The test behind the step is on a constant, and so its result does not matter.
  unfoldable pub sql_insert_file : View → sql.Db → Filework → Array → Result sql.Db
  sql_insert_file view db fw buf = do
    filename ← string_at path_room (view.buffers fw.full_path) 0
    rc ← io_md5 md5 (view.contents filename) buf
    elim rc [
      | none ↦ ok db
      | some buf ↦ (do
        name ← bound_path view fw
        let row : Row = record { fname = name; row_size = fw.fsize; md5_full = slice buf 0 32 }
        assert (sql.bind_insert db row == sqlite_ok)
        let (rc, db) = sql.step_insert db row
        ok db)
    ]

  -- `do_work`
  unfoldable pub do_work : View → State sql.Db → Filework → Array → Result (State sql.Db)
  do_work view s fw buf = do
    exists ← sql_file_exists view s.db fw
    if not exists
        then (do
          db ← sql_insert_file view s.db fw buf
          ok (record {
            db = db;
            file_count = s.file_count + 1;
            file_insert_count = s.file_insert_count + 1;
          }))
        else ok (record s { file_count = s.file_count + 1 })
