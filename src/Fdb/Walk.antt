-- ===== src/Fdb/Walk.antt =====
-- `walk_recur`: the walk over a tree of files, which pushes a task for each regular file to the pool of threads.
use dach.Base.{
  same_bytes, ℕ, zero, suc, ◌+◌, ◌==◌, leb, ltb, ◌||◌, if◌then◌else◌, Bool, Result, ok, err, exits,
  overrun, no_fuel, assert, check, ◌>>=◌, ◌>>◌, List, [], ◌∷◌, ◌++◌, Option, some, none, length,
  take,
}

-- `d_type` of a `struct dirent`.
pub data DirentType : Type 0 where
  dt_reg dt_dir dt_other : DirentType

pub record Dirent : Type 0 where
  pub d_name : List ℕ
  pub d_type : DirentType

-- What the walk reads of a `struct stat`.
pub record Stat : Type 0 where
  pub st_size : ℕ
  pub is_dir : Bool

-- A `filework` as it is pushed. Its `full_path` points to the buffer of the walk at the depth `frame`; `path` is what the
-- buffer holds at that moment.
pub record Pushed : Type 0 where
  pub frame : ℕ
  pub path : List ℕ
  pub pathlen : ℕ
  pub size : ℕ

-- The system: a directory's entries if it can be opened, `stat`, and whether the pool takes a task.
pub record System : Type 0 where
  pub opendir : List ℕ → Option (List Dirent)
  pub stat : List ℕ → Option Stat
  pub thread_pool_push : List Pushed → Pushed → Bool

-- The tasks pushed so far, and the buffer `full_path` of each depth.
pub record Walk : Type 0 where
  pub pool : List Pushed
  pub full_path : ℕ → List ℕ

abbrev pub dot : List ℕ
dot = 46 ∷ []

abbrev pub dot_dot : List ℕ
dot_dot = 46 ∷ 46 ∷ []

-- What `snprintf` leaves of a path in `full_path`: its size argument is 8191.
abbrev pub path_max : ℕ
path_max = 8190

unfoldable pub next_path : List ℕ → List ℕ → List ℕ
next_path dname name = take path_max (dname ++ (47 ∷ name))

abbrev pub is_dots : List ℕ → Bool
is_dots name = same_bytes name dot || same_bytes name dot_dot

abbrev pub set_path : Walk → ℕ → List ℕ → Walk
set_path w depth path = record w { full_path = λ k. if k == depth then path else w.full_path k }

module _ (sys : System) where
  -- The task of a regular file.
  unfoldable pub push_work : ℕ → List ℕ → ℕ → Walk → Result Walk
  push_work depth path size w =
      let work : Pushed = record {
        frame = depth;
        path = path;
        pathlen = length path;
        size = size;
      } in
      if sys.thread_pool_push w.pool work
      then ok (record w { pool = w.pool ++ (work ∷ []) })
      else err exits

  -- The body of the loop, with the recursive call `walk` for a directory.
  unfoldable pub visit :
      (ℕ → List ℕ → Walk → Result Walk) → ℕ → List ℕ → Dirent → Walk → Result Walk
  visit walk depth dname dent w = if is_dots dent.d_name then ok w else (elim dent.d_type [
    | dt_other ↦ ok w
    | dt_reg ↦
        let path = next_path dname dent.d_name in
        elim (sys.stat path) [
          | none ↦ ok (set_path w depth path)
          | some s ↦ push_work depth path s.st_size (set_path w depth path)
        ]
    | dt_dir ↦
        let path = next_path dname dent.d_name in
        elim (sys.stat path) [
          | none ↦ ok (set_path w depth path)
          | some s ↦
              if s.is_dir
              then walk (depth + 1) path (set_path w depth path)
              else ok (set_path w depth path)
        ]
  ])

  -- The loop over the entries of a directory.
  unfoldable pub entries_loop :
      (ℕ → List ℕ → Walk → Result Walk) → ℕ → List ℕ → List Dirent → Walk → Result Walk
  entries_loop walk depth dname [] w = ok w
  entries_loop walk depth dname (dent ∷ dents) w = do
    w ← visit walk depth dname dent w
    entries_loop walk depth dname dents w

  -- `walk_recur` at a depth of calls, with `FILENAME_MAX`. `strcpy` needs room for the name and a zero.
  unfoldable pub walk_recur : ℕ → ℕ → ℕ → List ℕ → Walk → Result Walk
  walk_recur filename_max zero depth dname w = err no_fuel
  walk_recur filename_max (suc fuel) depth dname w = do
    assert (leb (length dname) filename_max)
    check (ltb (length dname) filename_max) overrun
    elim (sys.opendir dname) [
      | none ↦ ok w
      | some dents ↦ entries_loop (walk_recur filename_max fuel) depth dname dents w
    ]
