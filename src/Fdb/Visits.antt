-- ===== src/Fdb/Visits.antt =====
-- `walk_recur` pushes the tasks of a tree.
use dach.Base.{
  ℕ, zero, suc, ◌+◌, ◌≤◌, ◌<◌, ◌≡◌, refl, ap, sym, ◌∙◌, arith, lt→ltb, le→leb, true, false, Result,
  ok, List, [], ◌∷◌, ◌++◌, length, take, ◌>>=◌,
}
use mathlib.Core.List.{append_assoc, append-nil}
use dach.Fdb.Walk.{
  dt_reg, dt_dir, dt_other, Dirent, Pushed, System, Walk, path_max, next_path, is_dots, set_path,
  push_work, visit, entries_loop, walk_recur,
}
use dach.Fdb.Tree.{
  Node, regular, directory, locked, gone, special, Entries, type_of, Shows, shows_regular,
  shows_directory, shows_locked, shows_gone, shows_special, Lists, lists_end, lists_dots,
  lists_entry, tasks, tasks_of, Fits, FitsAll,
}

take_all : (n : ℕ) (xs : List ℕ) → length xs ≤ n → take n xs ≡ xs
take_all zero [] h = refl
take_all zero (x ∷ xs) h = absurd (omega arith)
take_all (suc n) [] h = refl
take_all (suc n) (x ∷ xs) h = ap (λ t. x ∷ t) (take_all n xs (omega arith))

-- `result` is a walk that has pushed the tasks behind those of `pool`.
pub record Walked (pool : List Pushed) (ts : List Pushed) (result : Result Walk) : Type 0 where
  pub after : Walk
  pub returns : result ≡ ok after
  pub pool_lem : after.pool ≡ pool ++ ts

stays : (w w' : Walk) → w'.pool ≡ w.pool → Walked w.pool [] (ok w')
stays w w' e = record { after = w'; returns = refl; pool_lem = e ∙ sym (append-nil w.pool) }

-- One walk behind another.
bind-Walked :
    {pool : List Pushed} {ts us : List Pushed} {r : Result Walk} (next : Walk → Result Walk)
    → (first : Walked pool ts r) → Walked first.after.pool us (next first.after)
    → Walked pool (ts ++ us) (r >>= next)
bind-Walked {pool} {ts} {us} next first second = record {
  after = second.after;
  returns = rw (first.returns) (second.returns);
  pool_lem = second.pool_lem ∙ ap (λ p. p ++ us) first.pool_lem ∙ append_assoc pool ts us;
}

module _ (sys : System)
    (takes : (pool : List Pushed) (t : Pushed) → sys.thread_pool_push pool t ≡ true) (limit : ℕ)
    (bounded : limit ≤ path_max + 1) where
  Fits-short :
      (fuel : ℕ) (path : List ℕ) (node : Node) → Fits limit fuel path node → length path < limit
  unfolding Fits
  Fits-short zero path (directory es) h = absurd h
  Fits-short (suc fuel) path (directory es) (h, hs) = h
  Fits-short zero path (regular n) h = h
  Fits-short (suc fuel) path (regular n) h = h
  Fits-short zero path locked h = absurd h
  Fits-short (suc fuel) path locked h = h
  Fits-short zero path (gone t) h = h
  Fits-short (suc fuel) path (gone t) h = h
  Fits-short zero path special h = h
  Fits-short (suc fuel) path special h = h

  next_path_lem :
      (fuel : ℕ) (dname name : List ℕ) (node : Node)
      → Fits limit fuel (dname ++ (47 ∷ name)) node
      → next_path dname name ≡ dname ++ (47 ∷ name)
  unfolding next_path
  next_path_lem fuel dname name node h =
      take_all path_max (dname ++ (47 ∷ name))
        (omega (arith, Fits-short fuel (dname ++ (47 ∷ name)) node h))

  push_work-Walked :
      (depth : ℕ) (path : List ℕ) (n : ℕ) (w : Walk)
      → Walked w.pool
          (record { frame = depth; path = path; pathlen = length path; size = n } ∷ [])
          (push_work sys depth path n w)
  unfolding push_work
  push_work-Walked depth path n w = record {
    after = record w {
      pool =
          w.pool ++ (record { frame = depth; path = path; pathlen = length path; size = n } ∷ []);
    };
    returns =
        rw (takes w.pool (record { frame = depth; path = path; pathlen = length path; size = n }))
          refl;
    pool_lem = refl;
  }

  mutual
    unfolding tasks Fits visit entries_loop walk_recur push_work

    visit-Walked :
        (fuel depth : ℕ) (dname name : List ℕ) {path : List ℕ} {node : Node} (w : Walk)
        → is_dots name ≡ false
        → next_path dname name ≡ path
        → Shows sys path node
        → Fits limit fuel path node
        → Walked w.pool (tasks depth path node) (
            visit sys
              (walk_recur sys limit fuel)
              depth
              dname
              (record { d_name = name; d_type = type_of node })
              w)
    visit-Walked fuel depth dname name {path} w plain same (shows_regular s e) fits =
        rw (plain, same, e, same) (push_work-Walked depth path s.st_size (set_path w depth path))
    visit-Walked zero depth dname name w plain same (shows_directory s dents e d o ls) fits =
        absurd fits
    visit-Walked (suc fuel) depth dname name {path} w plain same (shows_directory s dents e d o ls)
          (short, fits) =
        rw
          (
            plain,
            same,
            e,
            d,
            same,
            le→leb (length path) limit (omega arith),
            lt→ltb (length path) limit short,
            o,
            same,
          )
          (entries_loop-Walked fuel (depth + 1) path (set_path w depth path) ls fits)
    visit-Walked zero depth dname name w plain same (shows_locked s e d o) fits = absurd fits
    visit-Walked (suc fuel) depth dname name {path} w plain same (shows_locked s e d o) short =
        rw
          (
            plain,
            same,
            e,
            d,
            same,
            le→leb (length path) limit (omega arith),
            lt→ltb (length path) limit short,
            o,
            same,
          )
          (stays w (set_path w depth path) refl)
    visit-Walked fuel depth dname name {path} w plain same (shows_gone dt_reg e) fits =
        rw (plain, same, e, same) (stays w (set_path w depth path) refl)
    visit-Walked fuel depth dname name {path} w plain same (shows_gone dt_dir e) fits =
        rw (plain, same, e, same) (stays w (set_path w depth path) refl)
    visit-Walked fuel depth dname name w plain same (shows_gone dt_other e) fits =
        rw plain (stays w w refl)
    visit-Walked fuel depth dname name w plain same shows_special fits = rw plain (stays w w refl)

    entries_loop-Walked :
        (fuel depth : ℕ) (dname : List ℕ) {dents : List Dirent} {es : Entries} (w : Walk)
        → Lists sys dname dents es
        → FitsAll limit fuel dname es
        → Walked w.pool
            (tasks_of depth dname es)
            (entries_loop sys (walk_recur sys limit fuel) depth dname dents w)
    entries_loop-Walked fuel depth dname w lists_end fits = stays w w refl
    entries_loop-Walked fuel depth dname w (lists_dots dent e ls) fits =
        rw e (entries_loop-Walked fuel depth dname w ls fits)
    entries_loop-Walked fuel depth dname w (lists_entry {dents = dents} name node plain s ls)
          (fit, fits) =
        let first =
          visit-Walked fuel depth dname name w plain (next_path_lem fuel dname name node fit) s
            fit in
        bind-Walked (λ w'. entries_loop sys (walk_recur sys limit fuel) depth dname dents w') first
          (entries_loop-Walked fuel depth dname first.after ls fits)

  -- On a file system that shows a tree of directories no deeper than the fuel, with all paths shorter than both
  -- `FILENAME_MAX` and the buffer, and a pool that takes every task, `walk_recur` returns. It has pushed one task for
  -- each regular file of the tree, in the order of the tree, with the path and the size of the file.
  pub walk_recur-Walked :
      (fuel : ℕ) (dname : List ℕ) (es : Entries) (w : Walk)
      → Shows sys dname (directory es)
      → Fits limit fuel dname (directory es)
      → Walked w.pool (tasks_of 0 dname es) (walk_recur sys limit fuel 0 dname w)
  unfolding walk_recur Fits
  walk_recur-Walked zero dname es w (shows_directory s dents e d o ls) fits = absurd fits
  walk_recur-Walked (suc fuel) dname es w (shows_directory s dents e d o ls) (short, fits) =
      rw (le→leb (length dname) limit (omega arith), lt→ltb (length dname) limit short, o)
        (entries_loop-Walked fuel 0 dname w ls fits)
