-- ===== src/Substring/Tests.antt =====
-- The search at concrete texts.
use eltex_school.Base.{◌≡◌, refl, none, some}
use eltex_school.Text.{codes, fgets, take_line, cut_at}
use eltex_school.Substring.{find_substring, main}
use eltex_school.Substring.First.{Found, find_substring_lem}

overlapping : main (codes "aaab aab\naab\n") ≡ some (some (codes "aab aab"))
unfolding main fgets take_line cut_at
overlapping = refl

missing : find_substring (codes "aba") (codes "abb") ≡ none
unfolding find_substring
missing = refl

find_substring_lem_example :
    Found (codes "aaab") (codes "aab") (find_substring (codes "aaab") (codes "aab"))
find_substring_lem_example = find_substring_lem (codes "aaab") (codes "aab")
