-- ===== src/SimpleShell.antt =====
-- lab10/task3.c: the shell without pipelines.
pub mod Trim
pub mod Same
mod Tests
use eltex_school.Base.{
  ℕ, zero, suc, Bool, Option, none, some, List, [], ◌∷◌, ◌==◌, if◌then◌else◌, length,
}
use eltex_school.Text.{Text, codes, str_eq, strtok, fgets, cut_at}

abbrev pub max_input : ℕ
max_input = 1024

abbrev pub is_space : ℕ → Bool
is_space c = c == b' '

-- The loop over the tokens, with `n` places left for them: `MAX_ARGS - 1` at first.
unfoldable pub split_args : (n : ℕ) → (input : Text) → List Text
split_args zero input = []
split_args (suc n) input = elim (strtok is_space input) [
  | none ↦ []
  | some (token, rest) ↦ token ∷ split_args n rest
]

-- What a line asks for: nothing, or a program with its arguments.
abbrev pub command_of : List Text → Option (List Text)
command_of [] = none
command_of (a ∷ args) = some (a ∷ args)

-- `none` for `exit`.
unfoldable pub read_line : (input : Text) → Option (Option (List Text))
unfolding split_args
read_line input =
    if str_eq input (codes "exit")
    then none
    else if length input == 0
    then some none
    else some (command_of (split_args 63 input))

-- The loop of `main`: what the lines ask for; `none` where the fuel runs out.
unfoldable pub main : (fuel : ℕ) → (stdin : Text) → Option (List (Option (List Text)))
unfolding read_line
main zero stdin = none
main (suc fuel) stdin = elim (fgets max_input stdin) [
  | none ↦ some []
  | some (line, rest) ↦ elim (read_line (cut_at b'\n' line)) [
    | none ↦ some []
    | some r ↦ elim (main fuel rest) [ none ↦ none | some rs ↦ some (r ∷ rs) ]
  ]
]
