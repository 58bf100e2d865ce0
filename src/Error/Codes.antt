-- ===== src/Error/Codes.antt =====
-- The error numbers are told apart, and so are their texts.
use Prim.Native.String.{String}
use package.text.Mathlib.Text.{◌==◌ as str_eq}
use dach.Base.{◌⊎◌, ℕ, ◌≤◌, ◌<◌, ◌≡◌, ◌≢◌, ◌==◌, if◌then◌else◌, List, [], ◌∷◌, Option, some}
use dach.Error.{
  Name, ebadf, eftype, einval, enametoolong, enotempty, eacces, eagain, eexist, einprogress, enomem,
  espipe, start_error, text, code, strerror,
}

-- The place of a name in the header, the inverse of `offset`.
name_at : ℕ → Name
name_at n =
    if n == 1
    then eacces
    else (if n == 2
        then eexist
        else (if n == 3
            then enametoolong
            else (if n == 7
                then enomem
                else (if n == 10
                    then ebadf
                    else (if n == 11
                        then einval
                        else (if n == 12
                            then espipe
                            else (if n == 13
                                then eagain
                                else (if n == 17
                                    then einprogress
                                    else (if n == 23 then eftype else enotempty)))))))))

-- What `errno.h` promises: numbers above 0 that differ, and that are below those of the header.
pub record IsPlatform (platform : Name → Option ℕ) : Type 0 where
  pub positive : (a : Name) (n : ℕ) → platform a ≡ some n → 0 < n
  pub below : (a : Name) (n : ℕ) → platform a ≡ some n → n ≤ start_error
  pub differ : (a b : Name) (n : ℕ) → platform a ≡ some n → platform b ≡ some n → a ≡ b

-- The name with a text, the inverse of `text`.
name_of : String → Name
name_of s =
    if str_eq s "access denied"
    then eacces
    else (if str_eq s "file already exists"
        then eexist
        else (if str_eq s "file name too long"
            then enametoolong
            else (if str_eq s "out of memory"
                then enomem
                else (if str_eq s "file descriptor not open"
                    then ebadf
                    else (if str_eq s "invalid argument"
                        then einval
                        else (if str_eq s "illegal seek"
                            then espipe
                            else (if str_eq s "temporary failure"
                                then eagain
                                else (if str_eq s "operation in progress"
                                    then einprogress
                                    else (if str_eq s "bad file type"
                                        then eftype
                                        else enotempty)))))))))

abbrev Has : List Name → Name → Type 0
Has [] a = ⊥
Has (n ∷ ns) a = (a ≡ n) ⊎ Has ns a

-- Each error has a text that no other error has.
pub record IsTold (platform : Name → Option ℕ) : Type 0 where
  pub own_text : (a : Name) → strerror platform (code platform a) ≡ text a
  pub told_apart :
      (a b : Name)
      → strerror platform (code platform a) ≡ strerror platform (code platform b)
      → a ≡ b
  pub success : strerror platform 0 ≡ "no error"
  pub unknown :
      (eno : ℕ)
      → 0 < eno
      → ((a : Name) → code platform a ≢ eno)
      → strerror platform eno ≡ "unknown error"
