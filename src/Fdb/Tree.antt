-- ===== src/Fdb/Tree.antt =====
-- The walk over a file system that holds a tree.
use dach.Base.{ℕ, zero, suc, ◌+◌, ◌<◌, ◌≡◌, true, false, List, [], ◌∷◌, ◌++◌, some, none, length}
use dach.Fdb.Walk.{DirentType, dt_reg, dt_dir, dt_other, Dirent, Stat, Pushed, System, is_dots}

-- What a path leads to. `gone` has a type in its directory but no `stat`, and `special` is neither a regular file nor a
-- directory.
mutual
  pub data Node : Type 0 where
    regular : ℕ → Node
    directory : Entries → Node
    locked : Node
    gone : DirentType → Node
    special : Node

  pub data Entries : Type 0 where
    end : Entries
    entry : List ℕ → Node → Entries → Entries

abbrev pub type_of : Node → DirentType
type_of (regular n) = dt_reg
type_of (directory es) = dt_dir
type_of locked = dt_dir
type_of (gone t) = t
type_of special = dt_other

-- The file system shows a node at a path, and the entries of a directory, with `.` and `..` anywhere among them.
mutual
  pub data Shows (sys : System) : List ℕ → Node → Type 0 where
    shows_regular :
        {path : List ℕ} (s : Stat) → sys.stat path ≡ some s → Shows sys path (regular s.st_size)
    shows_directory :
        {path : List ℕ} {es : Entries} (s : Stat) (dents : List Dirent)
        → sys.stat path ≡ some s
        → s.is_dir ≡ true
        → sys.opendir path ≡ some dents
        → Lists sys path dents es
        → Shows sys path (directory es)
    shows_locked :
        {path : List ℕ} (s : Stat)
        → sys.stat path ≡ some s
        → s.is_dir ≡ true
        → sys.opendir path ≡ none
        → Shows sys path locked
    shows_gone : {path : List ℕ} (t : DirentType) → sys.stat path ≡ none → Shows sys path (gone t)
    shows_special : {path : List ℕ} → Shows sys path special

  pub data Lists (sys : System) : List ℕ → List Dirent → Entries → Type 0 where
    lists_end : {path : List ℕ} → Lists sys path [] end
    lists_dots :
        {path : List ℕ} {dents : List Dirent} {es : Entries} (dent : Dirent)
        → is_dots dent.d_name ≡ true
        → Lists sys path dents es
        → Lists sys path (dent ∷ dents) es
    lists_entry :
        {path : List ℕ} {dents : List Dirent} {es : Entries} (name : List ℕ) (node : Node)
        → is_dots name ≡ false
        → Shows sys (path ++ (47 ∷ name)) node
        → Lists sys path dents es
        → Lists sys path
            (record { d_name = name; d_type = type_of node } ∷ dents)
            (entry name node es)

-- The tasks for the regular files of a tree, in order.
unfoldable mutual
  pub tasks : ℕ → List ℕ → Node → List Pushed
  tasks depth path (regular n) =
      record { frame = depth; path = path; pathlen = length path; size = n } ∷ []
  tasks depth path (directory es) = tasks_of (depth + 1) path es
  tasks depth path locked = []
  tasks depth path (gone t) = []
  tasks depth path special = []

  pub tasks_of : ℕ → List ℕ → Entries → List Pushed
  tasks_of depth path end = []
  tasks_of depth path (entry name node es) =
      tasks depth (path ++ (47 ∷ name)) node ++ tasks_of depth path es

-- All paths of the tree are shorter than `limit`, and `fuel` bounds the depth of its directories.
unfoldable mutual
  pub Fits : (limit fuel : ℕ) → List ℕ → Node → Type 0
  Fits limit zero path (directory es) = ⊥
  Fits limit (suc fuel) path (directory es) = (length path < limit) × FitsAll limit fuel path es
  Fits limit fuel path (regular n) = length path < limit
  Fits limit zero path locked = ⊥
  Fits limit (suc fuel) path locked = length path < limit
  Fits limit fuel path (gone t) = length path < limit
  Fits limit fuel path special = length path < limit

  pub FitsAll : (limit fuel : ℕ) → List ℕ → Entries → Type 0
  FitsAll limit fuel path end = Unit
  FitsAll limit fuel path (entry name node es) =
      Fits limit fuel (path ++ (47 ∷ name)) node × FitsAll limit fuel path es
