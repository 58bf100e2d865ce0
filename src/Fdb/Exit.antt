-- ===== src/Fdb/Exit.antt =====
-- How `main` ends.
use dach.Base.{
  ℕ, suc, ◌≡◌, ◌==◌, not, ◌&&◌, ◌||◌, if◌then◌else◌, Bool, true, false, Result, ok, err, Fault,
  overrun, ◌>>◌, List, [], ◌∷◌,
}
use dach.Fdb.Walk.{Pushed, System, Walk}
use dach.Fdb.Main.{Calls, Action, walks, closes, start_workers, walk, run_workers, fdb_main}

abbrev pub close_count : List Action → ℕ
close_count [] = 0
close_count (closes ∷ rest) = suc (close_count rest)
close_count (a ∷ rest) = close_count rest

abbrev pub has_walked : List Action → Bool
has_walked [] = false
has_walked (walks tasks ∷ rest) = true
has_walked (a ∷ rest) = has_walked rest

abbrev pub pushed : List Action → List Pushed
pushed [] = []
pushed (walks tasks ∷ rest) = tasks
pushed (a ∷ rest) = pushed rest

module _ (sys : System) (filename_max fuel : ℕ) (dname : List ℕ) (junk : ℕ → List ℕ)
    (c : Calls) where
  abbrev main_walk : Result Walk
  main_walk = walk sys filename_max fuel dname junk

  -- No call before the threads and the walk has failed.
  abbrev pub gets_to_walk : Bool
  gets_to_walk = (c.exec == 0) && ((c.extended_result_codes == 0) && (c.allocator_create == 0))

  -- `result` is a value and the actions before it: the database is closed once. The walk has run, with the tasks that it
  -- pushes, if no call before it failed. The value 0 says that it has run and that its pool has ended, or that there was
  -- no allocator.
  pub record Returned (result : Result (ℕ × List Action)) : Type 0 where
    pub rc : ℕ
    pub actions : List Action
    pub returns : result ≡ ok (rc, actions)
    pub table : c.exec ≡ 0
    pub closed : close_count actions ≡ 1
    pub walked : has_walked actions ≡ gets_to_walk
    pub tasks :
        (w : Walk) → main_walk ≡ ok w → pushed actions ≡ (if gets_to_walk then w.pool else [])
    pub success : (rc == 0) ≡ (
        (c.extended_result_codes == 0)
        && (not (c.allocator_create == 0)
            || ((c.tasks_cancel == 0) && (c.thread_pool_destroy == 0))))

  -- The ways in which `main` ends.
  pub data Ended (result : Result (ℕ × List Action)) : Type 0 where
    closes_twice : (c.exec == 0) ≡ false → result ≡ err overrun → Ended result
    walk_stops :
        (fault : Fault)
        → gets_to_walk ≡ true
        → (start_workers c >> main_walk) ≡ err fault
        → result ≡ err fault
        → Ended result
    returned : Returned result → Ended result

  abbrev main_run : Result (ℕ × List Action)
  main_run = fdb_main sys filename_max fuel dname junk c

  abbrev workers_run : Result (ℕ × List Action)
  workers_run = run_workers sys filename_max fuel dname junk c
