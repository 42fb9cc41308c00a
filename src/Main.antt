-- ===== src/Main.antt =====
-- src/main.cpp: the command line, and the course of a whole run. The program's arguments are lists
-- of bytes; what is printed for the user is left out.
use reversetta.Prelude.{
  ℕ, List, [], ◌∷◌, Bool, true, false, Option, none, some, if◌then◌else◌, ◌==◌, ◌&&◌, ◌||◌,
}
use reversetta.Emu.State.{Emu}
use reversetta.Emu.Imports.{thunk_for}
use reversetta.Emu.Run.{Host, Outcome, run}
use reversetta.Loader.{System, done, refused, crashed, load}
use reversetta.Loader.Format.{File}

-- `a == b` of two texts
unfoldable pub equal_bytes : List ℕ → List ℕ → Bool
equal_bytes [] [] = true
equal_bytes [] (b ∷ l) = false
equal_bytes (a ∷ k) [] = false
equal_bytes (a ∷ k) (b ∷ l) = let rest = equal_bytes k l in a == b && rest

-- what the command line asks for; the program's path is its first argument
pub data Command : Type 0 where
  show_usage : ℕ → Command
  run_program : ℕ → List ℕ → List (List ℕ) → Command

-- "-v", "-vv", "-vvv", "-h" and "--help"
abbrev opt_v : List ℕ
opt_v = b'-' ∷ b'v' ∷ []

abbrev opt_vv : List ℕ
opt_vv = b'-' ∷ b'v' ∷ b'v' ∷ []

abbrev opt_vvv : List ℕ
opt_vvv = b'-' ∷ b'v' ∷ b'v' ∷ b'v' ∷ []

abbrev opt_h : List ℕ
opt_h = b'-' ∷ b'h' ∷ []

abbrev opt_help : List ℕ
opt_help = b'-' ∷ b'-' ∷ b'h' ∷ b'e' ∷ b'l' ∷ b'p' ∷ []

-- the level of an option that sets `verbose`
unfoldable pub verbosity : List ℕ → Option ℕ
unfolding equal_bytes
verbosity a =
    if equal_bytes a opt_v
    then some 1
    else if equal_bytes a opt_vv
    then some 2
    else if equal_bytes a opt_vvv
    then some 3
    else none

-- the loop over the options, with `verbose` so far
unfoldable pub parse : ℕ → List (List ℕ) → Command
unfolding verbosity
parse verbose [] = show_usage 1
parse verbose (a ∷ l) = elim (verbosity a) [
  | some level ↦ parse level l
  | none ↦
      (if equal_bytes a opt_h || equal_bytes a opt_help
        then show_usage 0
        else run_program verbose a (a ∷ l))
]

-- the result of `main`: its exit code with the last state; `killed` is the end by a signal or an
-- exception, and `unknown` that the fuel did not do.
pub data Result : Type 0 where
  exits : ℕ → Result
  ran : Outcome → Result
  killed_by_system : Result
  unknown : Result

unfoldable pub finish : Option Outcome → Result
finish none = unknown
finish (some o) = ran o

-- what follows the options: `e` is a new emulator behind `init_chains`
unfoldable pub launch : ℕ → System → Host → Option File → List (List ℕ) → Emu → Result
unfolding finish load thunk_for run
launch fuel sys h f args e = elim (load sys f (thunk_for "__reversetta_exit" e).1) [
  | refused e' ↦ exits 1
  | crashed ↦ killed_by_system
  | done (entry, none) ↦ unknown
  | done (entry, some e') ↦ finish (run fuel h entry args e')
]

-- `file_at` gives the file at a path.
unfoldable pub main : ℕ → System → Host → (List ℕ → Option File) → List (List ℕ) → Emu → Result
unfolding parse launch
main fuel sys h file_at args e = elim (parse 0 args) [
  | show_usage code ↦ exits code
  | run_program verbose path guest_args ↦ launch fuel sys h (file_at path) guest_args e
]
