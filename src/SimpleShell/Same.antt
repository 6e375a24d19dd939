-- ===== src/SimpleShell/Same.antt =====
-- The two shells, lab10/task3.c and lab12/task3.c, on one line.
use eltex_school.Base.{ℕ, true, ◌≡◌, Bool, [], ◌∷◌, ◌==◌}
use eltex_school.Text.{Text}
use eltex_school.Shell.{trim_end, parse_pipeline, Request}
use eltex_school.Shell
use eltex_school.SimpleShell
use eltex_school.SimpleShell.{is_space}

abbrev pub is_tab : ℕ → Bool
is_tab c = c == b'\t'

abbrev pub AllSpaces : Text → Type 0
AllSpaces [] = Unit {0}
AllSpaces (c ∷ t) = (is_space c ≡ true) × AllSpaces t
