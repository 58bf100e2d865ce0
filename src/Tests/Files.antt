-- ===== src/Tests/Files.antt =====
-- The theorems on the walk and on the error numbers at concrete inputs.
use dach.Base.{
  not, same_bytes, ℕ, ◌==◌, refl, arith, Option, some, none, [], ◌∷◌, true, false, if◌then◌else◌,
}
use dach.Error.{
  Name, ebadf, eftype, einval, enametoolong, enotempty, eacces, eagain, eexist, einprogress, enomem,
  espipe,
}
use dach.Codec.Driver
use dach.Codec.Names.{Restored, decode_named-encode_named}
use dach.Fdb.Main.{Calls}
use dach.Fdb.Walk.{System, Walk, dt_reg, dt_dir, dot, walk_recur}
use dach.Fdb.Tree.{
  regular, directory, Entries, end, entry, Shows, shows_regular, shows_directory, lists_end,
  lists_dots, lists_entry, tasks_of, Fits,
}
use dach.Fdb.Visits.{Walked, walk_recur-Walked}

-- The directory `d`, with `.`, a file `a` and an empty directory `s`.
abbrev system : System
system = record {
  opendir = λ path.
      if same_bytes path (b'd' ∷ [])
      then some (
          record { d_name = dot; d_type = dt_dir }
          ∷ record { d_name = b'a' ∷ []; d_type = dt_reg }
          ∷ record { d_name = b's' ∷ []; d_type = dt_dir }
          ∷ [])
      else some [];
  stat = λ path.
      if same_bytes path (b'd' ∷ 47 ∷ b'a' ∷ [])
      then some (record { st_size = 12; is_dir = false })
      else some (record { st_size = 64; is_dir = true });
  thread_pool_push = λ pool t. true;
}

abbrev root : Entries
root = entry (b'a' ∷ []) (regular 12) (entry (b's' ∷ []) (directory end) end)

root-Shows : Shows system (b'd' ∷ []) (directory root)
root-Shows =
    shows_directory (record { st_size = 64; is_dir = true }) _ refl refl refl
      (lists_dots (record { d_name = dot; d_type = dt_dir }) refl
        (lists_entry (b'a' ∷ []) (regular 12) refl
          (shows_regular (record { st_size = 12; is_dir = false }) refl)
          (lists_entry (b's' ∷ []) (directory end) refl
            (shows_directory (record { st_size = 64; is_dir = true }) [] refl refl refl lists_end)
            lists_end)))

root-Fits : Fits 4096 2 (b'd' ∷ []) (directory root)
unfolding Fits
root-Fits = (omega arith, (omega arith, ((omega arith, tt), tt)))

abbrev idle : Walk
idle = record { pool = []; full_path = λ k. [] }

walk_recur-Walked_example :
    Walked [] (tasks_of 0 (b'd' ∷ []) root) (walk_recur system 4096 2 0 (b'd' ∷ []) idle)
walk_recur-Walked_example =
    walk_recur-Walked system (λ pool t. refl) 4096 (omega arith) 2 (b'd' ∷ []) root idle root-Shows
      root-Fits

-- The numbers of Linux, which has no EFTYPE.
abbrev linux : Name → Option ℕ
linux eacces = some 13
linux eexist = some 17
linux enametoolong = some 36
linux enomem = some 12
linux ebadf = some 9
linux einval = some 22
linux espipe = some 29
linux eagain = some 11
linux einprogress = some 115
linux enotempty = some 39
linux eftype = none

abbrev named : ℕ → Name
named n =
    if n == 13
    then eacces
    else (if n == 17
        then eexist
        else (if n == 36
            then enametoolong
            else (if n == 12
                then enomem
                else (if n == 9
                    then ebadf
                    else (if n == 22
                        then einval
                        else (if n == 29
                            then espipe
                            else (if n == 11
                                then eagain
                                else (if n == 115
                                    then einprogress
                                    else (if n == 39 then enotempty else eftype)))))))))

-- The files `t` and, once encoded, `t.dch`.
abbrev on_disk : Driver.System
on_disk = record {
  stat = λ name. true;
  contents = λ name. if same_bytes name (b't' ∷ []) then some (7 ∷ 8 ∷ []) else none;
  opens = λ name. true;
  maps = λ n. not (n == 0);
}

decode_named-encode_named_example : Restored 0 on_disk (b't' ∷ []) (7 ∷ 8 ∷ [])
decode_named-encode_named_example =
    decode_named-encode_named 0 on_disk (b't' ∷ []) (7 ∷ 8 ∷ []) refl refl refl refl refl
      (omega arith) (omega arith) (omega arith, (omega arith, tt))

-- A run in which the threads cannot be joined.
abbrev unjoined : Calls
unjoined = record {
  has_passwd = true;
  threadsafe = 1;
  access = 0;
  argc = 3;
  sqlite_open = 0;
  has_db = true;
  exec = 0;
  extended_result_codes = 0;
  allocator_create = 0;
  thread_pool_create = 0;
  tasks_cancel = 0;
  thread_pool_destroy = 9;
}
