-- ===== src/Error.antt =====
-- inc/dach/dach_error.h and src/dach/dach_error.c: the error numbers and their texts.
pub mod Codes
use Prim.Native.String.{String}
use dach.Base.{ℕ, ◌+◌, ◌==◌, if◌then◌else◌, List, [], ◌∷◌, Option, some, none}

-- The names of `dach_errno` but for `DACH_SUCCESS`.
pub data Name : Type 0 where
  ebadf eftype einval enametoolong enotempty eacces eagain eexist einprogress enomem espipe : Name

-- `DACH_PRIV_START_ERROR`, and what the header adds to it for a number that the platform does not define.
abbrev pub start_error : ℕ
start_error = 0xDEC0DE

abbrev pub offset : Name → ℕ
offset eacces = 1
offset eexist = 2
offset enametoolong = 3
offset enomem = 7
offset ebadf = 10
offset einval = 11
offset espipe = 12
offset eagain = 13
offset einprogress = 17
offset eftype = 23
offset enotempty = 26

abbrev pub text : Name → String
text ebadf = "file descriptor not open"
text eftype = "bad file type"
text einval = "invalid argument"
text enametoolong = "file name too long"
text enotempty = "directory not empty"
text eacces = "access denied"
text eagain = "temporary failure"
text eexist = "file already exists"
text einprogress = "operation in progress"
text enomem = "out of memory"
text espipe = "illegal seek"

-- The cases of `dach_strerror`, in order, but for the first.
abbrev pub names : List Name
names =
    ebadf ∷ eftype ∷ einval ∷ enametoolong ∷ enotempty ∷ eacces ∷ eagain ∷ eexist ∷ einprogress
    ∷ enomem ∷ espipe ∷ []

-- What the platform's `errno.h` defines.
module _ (platform : Name → Option ℕ) where
  -- The value of an enumerator.
  unfoldable pub code : Name → ℕ
  code name = elim (platform name) [ none ↦ start_error + offset name | some n ↦ n ]

  -- The text of the first case with the number.
  unfoldable pub switch : List Name → ℕ → Option String
  switch [] eno = none
  switch (name ∷ rest) eno = if eno == code name then some (text name) else switch rest eno

  -- `dach_strerror`
  unfoldable pub strerror : ℕ → String
  strerror eno =
      if eno == 0
      then "no error"
      else (elim (switch names eno) [ none ↦ "unknown error" | some s ↦ s ])
