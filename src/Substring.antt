-- ===== src/Substring.antt =====
-- lab3/task4.c: the search for a substring. A pointer into the text is what stands from there on.
pub mod First
mod Tests
use eltex_school.Base.{ℕ, Bool, true, false, Option, none, some, List, [], ◌∷◌, ◌==◌, if◌then◌else◌}
use eltex_school.Text.{Text, fgets, cut_at}

-- The inner loop: `s_start` and `sub_start` when it stops.
unfoldable pub advance : (s_start sub_start : Text) → Text × Text
advance [] sub = ([], sub)
advance (c ∷ s) [] = (c ∷ s, [])
advance (c ∷ s) (d ∷ sub) = let rest = advance s sub in if c == d then rest else (c ∷ s, d ∷ sub)

abbrev pub is_end : Text → Bool
is_end [] = true
is_end (c ∷ s) = false

-- The outer loop.
unfoldable pub find_from : (s sub : Text) → Option Text
unfolding advance
find_from [] sub = none
find_from (c ∷ s) sub =
    let later = find_from s sub in if is_end (advance (c ∷ s) sub).1 then some (c ∷ s) else later

unfoldable pub find_substring : (str sub : Text) → Option Text
unfolding find_from
find_substring str [] = some str
find_substring str (d ∷ sub) = find_from str (d ∷ sub)

-- `main`: the two lines, without their newlines; `none` where `fgets` leaves an array unfilled.
unfoldable pub main : (stdin : Text) → Option (Option Text)
unfolding find_substring
main stdin = elim (fgets 500 stdin) [
  | none ↦ none
  | some (str, rest) ↦ elim (fgets 100 rest) [
    | none ↦ none
    | some (sub, rest') ↦ some (find_substring (cut_at b'\n' str) (cut_at b'\n' sub))
  ]
]
