-- ===== src/Shell.antt =====
-- lab12/task3.c: the shell with pipelines. What `pipe` and `fork` return are arguments; a process is
-- what it holds when it calls `execvp`.
pub mod Parse
pub mod RoundTrip
pub mod Wiring
pub mod Loop
mod Tests
use eltex_school.Base.{
  ℕ, zero, suc, ◌+◌, Bool, true, false, ◌&&◌, ◌||◌, not, Option, none, some, List, [], ◌∷◌, ◌==◌,
  if◌then◌else◌, length,
}
use eltex_school.Text.{Text, codes, str_eq, strtok, fgets, cut_at}

abbrev pub max_cmd_len : ℕ
max_cmd_len = 1024

abbrev pub max_args : ℕ
max_args = 64

abbrev pub is_bar : ℕ → Bool
is_bar c = c == b'|'

abbrev pub is_blank : ℕ → Bool
is_blank c = c == b' ' || c == b'\t'

-- The spaces that `parse_pipeline` takes off a token: those in front, and those at its end.
unfoldable pub skip_blanks : Text → Text
skip_blanks [] = []
skip_blanks (c ∷ s) = if c == b' ' then skip_blanks s else c ∷ s

abbrev pub put_before : ℕ → Text → Text
put_before c [] = if c == b' ' then [] else c ∷ []
put_before c (d ∷ s) = c ∷ d ∷ s

unfoldable pub drop_blanks : Text → Text
drop_blanks [] = []
drop_blanks (c ∷ s) = put_before c (drop_blanks s)

-- The second loop stops at the first byte of the token.
abbrev pub trim_end : Text → Text
trim_end [] = []
trim_end (c ∷ s) = c ∷ drop_blanks s

unfoldable pub trim : Text → Text
unfolding skip_blanks drop_blanks
trim token = trim_end (skip_blanks token)

-- The two loops over tokens, with `n` places left in the array.
unfoldable pub parse_pipeline : (n : ℕ) → (input : Text) → List Text
unfolding trim
parse_pipeline zero input = []
parse_pipeline (suc n) input = elim (strtok is_bar input) [
  | none ↦ []
  | some (token, rest) ↦ trim token ∷ parse_pipeline n rest
]

unfoldable pub parse_args : (n : ℕ) → (cmd : Text) → List Text
parse_args zero cmd = []
parse_args (suc n) cmd = elim (strtok is_blank cmd) [
  | none ↦ []
  | some (token, rest) ↦ token ∷ parse_args n rest
]

abbrev pub parse_command : (cmd : Text) → List Text
parse_command cmd = parse_args 63 cmd

-- Where a standard stream leads, or what another descriptor is: an end of the pipe that the round
-- `i` of `execute_pipeline` made.
pub data End : Type 0 where
  terminal : End
  read_end : (i : ℕ) → End
  write_end : (i : ℕ) → End

unfoldable pub same_end : End → End → Bool
same_end terminal terminal = true
same_end (read_end i) (read_end j) = i == j
same_end (write_end i) (write_end j) = i == j
same_end terminal (read_end j) = false
same_end terminal (write_end j) = false
same_end (read_end i) terminal = false
same_end (read_end i) (write_end j) = false
same_end (write_end i) terminal = false
same_end (write_end i) (read_end j) = false

unfoldable pub close : End → List End → List End
unfolding same_end
close e [] = []
close e (x ∷ xs) = let rest = close e xs in if same_end e x then rest else x ∷ rest

-- A child at `execvp`; `kept` are the descriptors that it has besides the standard ones.
pub record Child : Type 0 where
  pub args : List Text
  pub input : End
  pub output : End
  pub kept : List End

abbrev pub from : (prev_pipe : Option ℕ) → End
from none = terminal
from (some i) = read_end i

unfoldable pub close_prev : (prev_pipe : Option ℕ) → List End → List End
unfolding close
close_prev none kept = kept
close_prev (some i) kept = close (read_end i) kept

unfoldable pub child :
    (cmd : Text) → (prev_pipe : Option ℕ) → (i : ℕ) → (last : Bool) → List End → Child
unfolding close_prev
child cmd prev_pipe i last kept =
    let mine = close_prev prev_pipe kept in
    record {
      args = parse_command cmd;
      input = from prev_pipe;
      output = if last then terminal else write_end i;
      kept = if last then mine else close (write_end i) (close (read_end i) mine);
    }

-- What `execute_pipeline` leaves: the children, the descriptors of the shell, whether it ended
-- because `pipe` or `fork` failed, and for how many children it waits.
pub record Launched : Type 0 where
  pub children : List Child
  pub kept : List End
  pub failed : Bool
  pub waits : ℕ

abbrev pub is_last : List Text → Bool
is_last [] = true
is_last (c ∷ cs) = false

-- The loop of `execute_pipeline` from round `i` on.
unfoldable pub launch :
    (pipe_ok fork_ok : ℕ → Bool)
    → (i : ℕ) → (prev_pipe : Option ℕ) → List End
    → (commands : List Text) → Launched
unfolding child close_prev
launch pipe_ok fork_ok i prev_pipe kept [] = record {
  children = [];
  kept = kept;
  failed = false;
  waits = 0;
}
launch pipe_ok fork_ok i prev_pipe kept (cmd ∷ cmds) =
    let last = is_last cmds in
    let opened = if last then kept else read_end i ∷ write_end i ∷ kept in
    let closed = close_prev prev_pipe opened in
    let rest =
      launch pipe_ok fork_ok (i + 1) (if last then prev_pipe else some i)
        (if last then closed else close (write_end i) closed) cmds in
    if not last && not (pipe_ok i)
    then record { children = []; kept = kept; failed = true; waits = 0 }
    else if not (fork_ok i)
    then record { children = []; kept = opened; failed = true; waits = 0 }
    else record {
      children = child cmd prev_pipe i last opened ∷ rest.children;
      kept = rest.kept;
      failed = rest.failed;
      waits = if rest.failed then 0 else rest.waits + 1;
    }

unfoldable pub execute_pipeline : (pipe_ok fork_ok : ℕ → Bool) → (commands : List Text) → Launched
unfolding launch
execute_pipeline pipe_ok fork_ok commands = launch pipe_ok fork_ok 0 none [] commands

-- What a line asks for.
pub data Request : Type 0 where
  blank : Request
  single : (args : List Text) → Request
  pipeline : (commands : List Text) → Request

abbrev pub request_of : (commands : List Text) → Request
request_of [] = pipeline []
request_of (c ∷ []) = single (parse_command c)
request_of (c ∷ d ∷ cs) = pipeline (c ∷ d ∷ cs)

-- `none` for `exit` and `quit`.
unfoldable pub read_line : (input : Text) → Option Request
unfolding parse_pipeline parse_args
read_line input =
    if str_eq input (codes "exit") || str_eq input (codes "quit")
    then none
    else if length input == 0
    then some blank
    else some (request_of (parse_pipeline max_args input))

-- The loop of `main`: what the lines ask for, up to the end of the input or a line that ends the
-- shell; `none` where the fuel runs out.
unfoldable pub main : (fuel : ℕ) → (stdin : Text) → Option (List Request)
unfolding read_line
main zero stdin = none
main (suc fuel) stdin = elim (fgets max_cmd_len stdin) [
  | none ↦ some []
  | some (line, rest) ↦ elim (read_line (cut_at b'\n' line)) [
    | none ↦ some []
    | some r ↦ elim (main fuel rest) [ none ↦ none | some rs ↦ some (r ∷ rs) ]
  ]
]
