-- ===== src/Command/Dispatch.antt =====
-- `main` runs the command that it is given, or exits.
use Prim.Native.String.{String}
use Prim.Native.Nat.{max}
use text.Mathlib.Text.{◌==◌ as str_eq}
use native.Mathlib.Decide.{dec_lt}
use mathlib.Core.Option.{some-injective}
use dach.Base.{
  ℕ, zero, suc, ◌+◌, ◌≤◌, ◌<◌, ◌≡◌, refl, ap, sym, ◌∙◌, arith, Result, err, exits, ltb, lt→ltb,
  le→ltb, if◌then◌else◌, Bool, true, false, Bool-cases, ◌⊎◌, inl, inr, List, [], ◌∷◌, Option, some,
  none, All, length, get_elem?,
}
use dach.Command.{
  Command, encode, decode, estream, dstream, info, Entry, Settings, default_config, ArgsInfo,
  int_lt, size_of_int, choose, is_listed, cmd_is_builtin, run_loop, cmd_run, main, get_arg_loop,
  get_arg,
}

-- The name of each command, as the text of the usage has it.
abbrev pub name_of : Command → String
name_of encode = "encode"
name_of decode = "decode"
name_of estream = "estream"
name_of dstream = "dstream"
name_of info = "info"

-- What `main` does with a command: `result` is that of the function with this name, or no function has it and `main`
-- exits.
pub data Dispatched (cmd_func : Command → Settings → Result ℕ) (cmd : String) (dc : Settings)
    (result : Result ℕ) : Type 0 where
  runs :
      (c : Command)
      → str_eq cmd (name_of c) ≡ true
      → result ≡ cmd_func c dc
      → Dispatched cmd_func cmd dc result
  usage :
      ((c : Command) → str_eq cmd (name_of c) ≡ false)
      → result ≡ err exits
      → Dispatched cmd_func cmd dc result

-- A table of commands with their names.
abbrev entries : List Command → List Entry
entries [] = []
entries (c ∷ cs) = record { cmd = name_of c; cmd_func = c } ∷ entries cs

module _ (cmd_func : Command → Settings → Result ℕ) where
  -- The functions for the names of a table: that of the first entry of the name is run.
  run_names :
      (cs : List Command) (cmd : String) (dc : Settings)
      → ((c : Command) × (str_eq cmd (name_of c) ≡ true)
          × (is_listed (entries cs) cmd ≡ true)
          × (run_loop cmd_func (entries cs) cmd dc ≡ cmd_func c dc))
        ⊎ ((is_listed (entries cs) cmd ≡ false) × All (λ c. str_eq cmd (name_of c) ≡ false) cs)
  unfolding is_listed run_loop
  run_names [] cmd dc = inr (refl, tt)
  run_names (c ∷ cs) cmd dc = elim (Bool-cases (str_eq cmd (name_of c))) [
    | inl e ↦ inl (c, e, rw e refl, rw e refl)
    | inr e ↦ elim (run_names cs cmd dc) [
      | inl (d, named, is_there, r) ↦ inl (d, named, rw (e, is_there) refl, rw (e, r) refl)
      | inr (none_there, all) ↦ inr (rw (e, none_there) refl, (e, all))
    ]
  ]

  every_command :
      (P : Command → Type 0)
      → All P (encode ∷ decode ∷ estream ∷ dstream ∷ info ∷ [])
      → (c : Command) → P c
  every_command P (a, (b, (c, (d, (e, t))))) encode = a
  every_command P (a, (b, (c, (d, (e, t))))) decode = b
  every_command P (a, (b, (c, (d, (e, t))))) estream = c
  every_command P (a, (b, (c, (d, (e, t))))) dstream = d
  every_command P (a, (b, (c, (d, (e, t))))) info = e

  -- With arguments that the parser accepts, `main` runs the function that has the name of the command, of `encode`,
  -- `decode`, `estream`, `dstream` and `info`, on the settings that were chosen, and exits for any other name.
  pub main-Dispatched :
      (ai : ArgsInfo) (cmd : String)
      → Dispatched cmd_func cmd (choose ai default_config) (main cmd_func (some ai) (some cmd))
  unfolding main cmd_run cmd_is_builtin
  main-Dispatched ai cmd =
      elim (run_names (encode ∷ decode ∷ estream ∷ dstream ∷ info ∷ []) cmd
        (choose ai default_config)) [
          | inl (c, named, is_there, r) ↦ runs c named (rw is_there r)
          | inr (none_there, all) ↦ usage (every_command _ all) (rw none_there refl)
        ]

size_max : (b d : ℕ) → (if ltb d (size_of_int b) then size_of_int b else d) ≡ max d (size_of_int b)
size_max b d = elim (dec_lt d (size_of_int b)) [
  | yes h ↦ rw (lt→ltb d (size_of_int b) h) (omega arith)
  | no h ↦ rw (le→ltb d (size_of_int b) (omega arith)) (omega arith)
]

size_le :
    (o : Option ℕ) (d : ℕ)
    → d ≤ (elim o [ none ↦ d | some b ↦ if ltb d (size_of_int b) then size_of_int b else d ])
size_le none d = omega arith
size_le (some b) d = omega (arith, size_max b d)

-- `t` is the larger one of two `int`.
pub record IsIntMax (a b t : ℕ) : Type 0 where
  pub one : (t ≡ a) ⊎ (t ≡ b)
  pub not_below_left : int_lt t a ≡ false
  pub not_below_right : int_lt t b ≡ false

module _ (strstr : String → String → Bool) where
  -- The argument behind the first one that contains the option.
  pub record IsBehind (argv : List String) (opt : String) (j : ℕ) : Type 0 where
    pub index : ℕ
    pub behind : j ≡ index + 1
    pub inside : j < length argv
    pub holder : String
    pub here : get_elem? argv index ≡ some holder
    pub contains : strstr holder opt ≡ true
    pub earlier :
        (i : ℕ) (a : String) → i < index → get_elem? argv i ≡ some a → strstr a opt ≡ false

  -- What the search gives: the place behind the first argument that contains the option, or -1 and no argument but the
  -- last one contains it.
  pub data Sought (argv : List String) (opt : String) (result : Option ℕ) : Type 0 where
    behind_it : (j : ℕ) → result ≡ some j → IsBehind argv opt j → Sought argv opt result
    nowhere :
        result ≡ none
        → ((i : ℕ) (a : String)
            → i + 1 < length argv
            → get_elem? argv i ≡ some a
            → strstr a opt ≡ false)
        → Sought argv opt result

  -- The arguments behind one that does not contain the option.
  module _ (a b : String) (rest : List String) (opt : String)
      (not_here : strstr a opt ≡ false) where
    later-IsBehind : {k : ℕ} → IsBehind (b ∷ rest) opt k → IsBehind (a ∷ b ∷ rest) opt (suc k)
    later-IsBehind r = record {
      index = suc r.index;
      behind = omega (arith, r.behind);
      inside = omega (arith, r.inside);
      holder = r.holder;
      here = r.here;
      contains = r.contains;
      earlier = go;
    }
      where
        go :
            (i : ℕ) (x : String)
            → i < suc r.index
            → get_elem? (a ∷ b ∷ rest) i ≡ some x
            → strstr x opt ≡ false
        go zero x h e = ap (λ y. strstr y opt) (sym (some-injective a x e)) ∙ not_here
        go (suc i) x h e = r.earlier i x (omega arith) e

    later-none :
        ((i : ℕ) (x : String)
          → i + 1 < length (b ∷ rest)
          → get_elem? (b ∷ rest) i ≡ some x
          → strstr x opt ≡ false)
        → (i : ℕ) (x : String) → i + 1 < length (a ∷ b ∷ rest)
        → get_elem? (a ∷ b ∷ rest) i ≡ some x
        → strstr x opt ≡ false
    later-none h zero x lt e = ap (λ y. strstr y opt) (sym (some-injective a x e)) ∙ not_here
    later-none h (suc i) x lt e = h i x (omega arith) e

  get_arg_loop-cases :
      (argv : List String) (tmp : ℕ) (opt : String)
      → ((k : ℕ) × (get_arg_loop strstr argv tmp opt ≡ some (tmp + k)) × IsBehind argv opt k)
        ⊎ ((get_arg_loop strstr argv tmp opt ≡ none)
            × ((i : ℕ) (a : String)
                → i + 1 < length argv
                → get_elem? argv i ≡ some a
                → strstr a opt ≡ false))
  unfolding get_arg_loop
  get_arg_loop-cases [] tmp opt = inr (refl, λ i a h e. absurd (omega arith))
  get_arg_loop-cases (a ∷ []) tmp opt = inr (refl, λ i x h e. absurd (omega arith))
  get_arg_loop-cases (a ∷ b ∷ rest) tmp opt = elim (Bool-cases (strstr a opt)) [
    | inl yes_here ↦ inl (
      1,
      rw yes_here refl,
      record {
        index = 0;
        behind = refl;
        inside = omega arith;
        holder = a;
        here = refl;
        contains = yes_here;
        earlier = λ i x h k. absurd (omega arith);
      },
    )
    | inr not_here ↦ elim (get_arg_loop-cases (b ∷ rest) (tmp + 1) opt) [
      | inl (k, e, r) ↦
          let up : tmp + 1 + k ≡ tmp + suc k = omega arith in
          inl (suc k, rw (not_here) (e ∙ ap some up), later-IsBehind a b rest opt not_here r)
      | inr (e, h) ↦ inr (rw not_here e, later-none a b rest opt not_here h)
    ]
  ]

  -- `dach_get_arg` gives the place of the argument behind the first one that contains the option, which is inside the
  -- arguments, and -1 only if no argument but the last contains it.
  pub get_arg-Sought :
      (argv : List String) (opt : String) → Sought argv opt (get_arg strstr argv opt)
  unfolding get_arg
  get_arg-Sought argv opt = elim (get_arg_loop-cases argv 0 opt) [
    | inl (k, e, r) ↦ let z : 0 + k ≡ k = omega arith in behind_it k (e ∙ ap some z) r
    | inr (e, h) ↦ nowhere e h
  ]
