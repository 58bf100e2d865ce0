-- ===== src/Fdb/Main.antt =====
-- src/fdb/fdb.c: `main`, and the calls that it makes on the database and the pool.
use dach.Base.{
  ℕ, ◌==◌, not, if◌then◌else◌, Bool, Result, ok, err, exits, overrun, assert, check, ◌>>=◌, ◌>>◌,
  List, [], ◌∷◌, ◌++◌,
}
use dach.Fdb.Walk.{Pushed, System, Walk, walk_recur}

-- The results of the calls, as `main` tests them.
pub record Calls : Type 0 where
  pub has_passwd : Bool
  pub threadsafe : ℕ
  pub access : ℕ
  pub argc : ℕ
  pub sqlite_open : ℕ
  pub has_db : Bool
  pub exec : ℕ
  pub extended_result_codes : ℕ
  pub allocator_create : ℕ
  pub thread_pool_create : ℕ
  pub tasks_cancel : ℕ
  pub thread_pool_destroy : ℕ

-- What is done to the database and the pool; the walk pushes its tasks.
pub data Action : Type 0 where
  cancels destroys closes shuts_down : Action
  walks : List Pushed → Action

abbrev pub quick_exit : ℕ → Result (ℕ × List Action)
quick_exit rc = ok (rc, closes ∷ shuts_down ∷ [])

abbrev pub behind : List Action → Result (ℕ × List Action) → Result (ℕ × List Action)
behind actions r = do (rc, rest) ← r; ok (rc, actions ++ rest)

-- `fdb_start_workers`, as far as it can fail.
abbrev pub start_workers : Calls → Result (Unit {0})
start_workers c = check (c.thread_pool_create == 0) exits

-- The system, `FILENAME_MAX`, the fuel of the walk, `argv[2]`, and what the buffers of the walk hold before it.
module _ (sys : System) (filename_max fuel : ℕ) (dname : List ℕ) (junk : ℕ → List ℕ) where
  -- The walk, with an empty pool.
  abbrev pub walk : Result Walk
  walk = walk_recur sys filename_max fuel 0 dname (record { pool = []; full_path = junk })

  -- `main` from the start of the threads on. The walk, which returns 0, may stop the program.
  unfoldable pub run_workers : Calls → Result (ℕ × List Action)
  run_workers c = do
    start_workers c
    w ← walk
    if c.tasks_cancel == 0
        then behind (walks w.pool ∷ cancels ∷ destroys ∷ []) (quick_exit c.thread_pool_destroy)
        else behind (walks w.pool ∷ cancels ∷ []) (quick_exit c.tasks_cancel)

  -- `main`: the value that it returns, and its actions. If the table cannot be made, it closes the database and goes on to
  -- close it again, an access to freed memory. Behind a failed `apr_allocator_create` it returns the result of the call
  -- before, which was 0.
  unfoldable pub fdb_main : Calls → Result (ℕ × List Action)
  fdb_main c = do
    check c.has_passwd exits
    assert (c.threadsafe == 1)
    assert (c.access == 0)
    if not (c.argc == 3) then ok (1, []) else (do
      assert (c.sqlite_open == 0)
      assert c.has_db
      if not (c.exec == 0)
          then err overrun
          else (if not (c.extended_result_codes == 0)
              then quick_exit c.extended_result_codes
              else (if not (c.allocator_create == 0) then quick_exit 0 else run_workers c)))
