-- ===== src/Command.antt =====
-- src/dach/dach_main.c and src/dach/dach_command.c: the options of the command line and the commands. A C `int`
-- is given by its 32 bits.
pub mod Dispatch
use Prim.Native.String.{String}
use text.Mathlib.Text.{◌==◌ as str_eq}
use dach.Base.{
  ℕ, zero, suc, ◌+◌, ◌-◌, ◌*◌, ◌%◌, ◌^◌, Result, ok, err, exits, check, ◌>>=◌, ◌>>◌, ltb,
  if◌then◌else◌, Bool, true, false, not, u32, u64, List, [], ◌∷◌, Option, some, none,
}

-- The functions of `commands`.
pub data Command : Type 0 where
  encode decode estream dstream info : Command

-- `struct cmd_struct`, without its option, which nothing reads.
pub record Entry : Type 0 where
  pub cmd : String
  pub cmd_func : Command

abbrev pub commands : List Entry
commands =
    record { cmd = "encode"; cmd_func = encode }
    ∷ record { cmd = "decode"; cmd_func = decode }
    ∷ record { cmd = "estream"; cmd_func = estream }
    ∷ record { cmd = "dstream"; cmd_func = dstream }
    ∷ record { cmd = "info"; cmd_func = info }
    ∷ []

-- The fields of `DACH_CONFIG` that `main` sets.
pub record Settings : Type 0 where
  pub file : Option String
  pub mode : String
  pub block_size : ℕ
  pub threads : ℕ

-- `dach_default_config`: the initializers without names go to the first four fields, `block_size` among them, and
-- `threads` is 0.
abbrev pub default_config : Settings
default_config = record { file = none; mode = "r"; block_size = 4; threads = 0 }

-- What the parser of the command line found, if it accepted it.
pub record ArgsInfo : Type 0 where
  pub file_arg : Option String
  pub threads_arg : Option ℕ
  pub block_size_arg : Option ℕ

-- `a < b` for two `int`, and an `int` as a `size_t`.
abbrev pub int_lt : ℕ → ℕ → Bool
int_lt a b = ltb (u32 (a + 2 ^ 31)) (u32 (b + 2 ^ 31))

abbrev pub size_of_int : ℕ → ℕ
size_of_int w = if ltb w (2 ^ 31) then w else w + (2 ^ 64 - 2 ^ 32)

-- The choice of the settings in `main`.
unfoldable pub choose : ArgsInfo → Settings → Settings
choose ai dc = record {
  file = elim ai.file_arg [ none ↦ dc.file | some f ↦ some f ];
  mode = dc.mode;
  block_size = elim ai.block_size_arg [
    | none ↦ dc.block_size
    | some b ↦ if ltb dc.block_size (size_of_int b) then size_of_int b else dc.block_size
  ];
  threads = elim ai.threads_arg [
    | none ↦ dc.threads
    | some t ↦ if int_lt dc.threads t then t else dc.threads
  ];
}

-- The loop of `cmd_is_builtin`.
unfoldable pub is_listed : List Entry → String → Bool
is_listed [] s = false
is_listed (p ∷ ps) s = if str_eq s p.cmd then true else is_listed ps s

unfoldable pub cmd_is_builtin : Option String → Bool
cmd_is_builtin none = false
cmd_is_builtin (some s) = is_listed commands s

-- What the functions of the commands do.
module _ (cmd_func : Command → Settings → Result ℕ) where
  -- The loop of `cmd_run`.
  unfoldable pub run_loop : List Entry → String → Settings → Result ℕ
  run_loop [] cmd dc = ok 0
  run_loop (p ∷ ps) cmd dc = if str_eq cmd p.cmd then cmd_func p.cmd_func dc else run_loop ps cmd dc

  unfoldable pub cmd_run : String → Settings → Result ℕ
  cmd_run cmd dc = do check (cmd_is_builtin (some cmd)) exits; run_loop commands cmd dc

  -- `main`, with its second argument, if there is one. `dach_usage` exits.
  unfoldable pub main : Option ArgsInfo → Option String → Result ℕ
  main ai cmd = elim ai [
    | none ↦ err exits
    | some ai ↦ elim cmd [
      | none ↦ err exits
      | some cmd ↦
          if cmd_is_builtin (some cmd) then cmd_run cmd (choose ai default_config) else err exits
    ]
  ]

module _ (strstr : String → String → Bool) where
  -- The loop of `dach_get_arg`, over the arguments from number `tmp` on. `none` is -1.
  unfoldable pub get_arg_loop : List String → ℕ → String → Option ℕ
  get_arg_loop [] tmp opt = none
  get_arg_loop (a ∷ []) tmp opt = none
  get_arg_loop (a ∷ b ∷ rest) tmp opt =
      if strstr a opt then some (tmp + 1) else get_arg_loop (b ∷ rest) (tmp + 1) opt

  unfoldable pub get_arg : List String → String → Option ℕ
  get_arg argv opt = get_arg_loop argv 0 opt
