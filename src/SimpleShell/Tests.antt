-- ===== src/SimpleShell/Tests.antt =====
-- The shell of lab10/task3.c on concrete input.
use eltex_school.Base.{◌≡◌, refl, none, some, [], ◌∷◌}
use eltex_school.Text.{codes, str_eq, strtok, skip_delims, split_delim, token_at, fgets, cut_at}
use eltex_school.Shell
use eltex_school.SimpleShell
use eltex_school.SimpleShell.{split_args}

main_test :
    SimpleShell.main 5 (codes "ls -l\n  \n\nexit\nps\n")
    ≡ some (some (codes "ls" ∷ codes "-l" ∷ []) ∷ none ∷ none ∷ [])
unfolding SimpleShell.main SimpleShell.read_line split_args str_eq strtok skip_delims split_delim
    token_at fgets cut_at
main_test = refl
