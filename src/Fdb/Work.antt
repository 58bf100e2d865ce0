-- ===== src/Fdb/Work.antt =====
-- The work on a file, over a database with one row for each name.
use dach.Base.{
  same_bytes, ℕ, zero, suc, ◌+◌, ◌≡◌, refl, ap, sym, ◌∙◌, Array, Result, ok, overrun, check, leb,
  ◌==◌, >>=-ok, if◌then◌else◌, Bool, true, false, Bool-cases, inl, inr, List, [], ◌∷◌, length,
  Option, some, none,
}
use dach.Fdb.{
  Filework, Row, Sqlite, State, sqlite_done, sqlite_row, View, path_room, string_at, bound_path,
}
use dach.Block.{slice}
use dach.Fdb.Hex.{hex_of}

abbrev pub has_name : List Row → List ℕ → Bool
has_name [] name = false
has_name (r ∷ rs) name = if same_bytes r.fname name then true else has_name rs name

-- No two rows have the same name.
abbrev pub IsKeyed : List Row → Type 0
IsKeyed [] = Unit
IsKeyed (r ∷ rs) = (has_name rs r.fname ≡ false) × IsKeyed rs

-- A database that answers, with the table `rows` and its names as the primary key.
pub record IsDatabase (sql : Sqlite) : Type 0 where
  pub rows : sql.Db → List Row
  pub prepares : (db : sql.Db) → sql.prepare_exists db ≡ 0
  pub binds : (db : sql.Db) (name : List ℕ) → sql.bind_exists db name ≡ 0
  pub finds :
      (db : sql.Db) (name : List ℕ)
      → sql.step_exists db name
        ≡ (if has_name (rows db) name then (sqlite_row, true) else (sqlite_done, false))
  pub binds_row : (db : sql.Db) (row : Row) → sql.bind_insert db row ≡ 0
  pub inserts :
      (db : sql.Db) (row : Row)
      → rows ((sql.step_insert db row).1)
        ≡ (if has_name (rows db) row.fname then rows db else row ∷ rows db)

-- The rows after the work on a file of this name and size, with these contents if it can be read.
abbrev pub with_file : (List ℕ → List ℕ) → List Row → List ℕ → ℕ → Option (List ℕ) → List Row
with_file md5 rows name fsize file = if has_name rows name then rows else (elim file [
  | none ↦ rows
  | some bytes ↦ record { fname = name; row_size = fsize; md5_full = hex_of (md5 bytes) } ∷ rows
])

-- The buffer of the task: `opened` is the string in it, and `name` the text of the length that the path had.
pub record Points (view : View) (fw : Filework) : Type 0 where
  pub name : List ℕ
  pub opened : List ℕ
  pub name_lem : bound_path view fw ≡ ok name
  pub opened_lem : string_at path_room (view.buffers fw.full_path) 0 ≡ ok opened

string_at-slice :
    (n : ℕ) (a : Array) (i : ℕ) (s : List ℕ) → string_at n a i ≡ ok s → slice a i (length s) ≡ s
unfolding string_at slice
string_at-slice zero a i s e = cc
string_at-slice (suc n) a i s e = elim (Bool-cases (a i == 0)) [
  | inl z ↦
      let done : ok [] ≡ ok s = rw (string_at, z) at e in let same : [] ≡ s = cc in rw (← same) refl
  | inr z ↦
      let (rest, before, after) =
        >>=-ok (string_at n a (i + 1)) (λ rest. ok (a i ∷ rest)) (rw (string_at, z) at e) in
      let same : a i ∷ rest ≡ s = cc in
      rw (← same) (ap (λ t. a i ∷ t) (string_at-slice n a (i + 1) rest before))
]

-- A buffer that holds a path of the length from the push gives the same name to both.
pub name-opened :
    {view : View} {fw : Filework} (p : Points view fw)
    → length p.opened ≡ fw.pathlen
    → p.name ≡ p.opened
unfolding bound_path
name-opened {view} {fw} p same =
    let (u, fits, e) =
      >>=-ok (check (leb fw.pathlen path_room) overrun)
        (λ _. ok (slice (view.buffers fw.full_path) 0 fw.pathlen)) p.name_lem in
    let text : slice (view.buffers fw.full_path) 0 fw.pathlen ≡ p.name = cc in
    sym text
    ∙ ap (λ n. slice (view.buffers fw.full_path) 0 n) (sym same)
    ∙ string_at-slice path_room (view.buffers fw.full_path) 0 p.opened p.opened_lem

module _ (sql : Sqlite) (laws : IsDatabase sql) (md5 : List ℕ → List ℕ)
    (sixteen : (bytes : List ℕ) → length (md5 bytes) ≡ 16) {view : View} {fw : Filework}
    (p : Points view fw) where
  -- `result` is the state after the work: one more file is counted, and the rows have the file.
  pub record Worked (s : State sql.Db) (result : Result (State sql.Db)) : Type 0 where
    pub after : State sql.Db
    pub returns : result ≡ ok after
    pub counted : after.file_count ≡ s.file_count + 1
    pub rows_lem :
        laws.rows after.db ≡ with_file md5 (laws.rows s.db) p.name fw.fsize (view.contents p.opened)
    pub keyed : IsKeyed (laws.rows after.db)
    pub same_path : length p.opened ≡ fw.pathlen → p.name ≡ p.opened

  -- The row of a file that can be read.
  abbrev row_of : List ℕ → Row
  row_of bytes = record { fname = p.name; row_size = fw.fsize; md5_full = hex_of (md5 bytes) }
