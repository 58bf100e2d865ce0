-- ===== src/Fdb/Whole.antt =====
-- `main` on a directory tree, from the walk to the end of the pool.
use dach.Base.{◌≡◌, true}
use dach.Fdb.Main.{Calls}

-- No call of `main` fails.
pub record AllSucceed (c : Calls) : Type 0 where
  pub passwd : c.has_passwd ≡ true
  pub safe : c.threadsafe ≡ 1
  pub found : c.access ≡ 0
  pub three : c.argc ≡ 3
  pub opened : c.sqlite_open ≡ 0
  pub db : c.has_db ≡ true
  pub table : c.exec ≡ 0
  pub codes : c.extended_result_codes ≡ 0
  pub allocator : c.allocator_create ≡ 0
  pub pool : c.thread_pool_create ≡ 0
  pub cancelled : c.tasks_cancel ≡ 0
  pub joined : c.thread_pool_destroy ≡ 0
