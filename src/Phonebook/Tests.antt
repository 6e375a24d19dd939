-- ===== src/Phonebook/Tests.antt =====
-- Runs of the phone book, and its theorems at concrete input.
use eltex_school.Base.{ℕ, ◌≡◌, refl, some, [], ◌∷◌, ◌↔◌}
use eltex_school.Base.Int.{pos}
use eltex_school.Text.{Text, codes, scan_int, skip_space, scan_word}
use eltex_school.Phonebook.{
  Abonent, Book, Junk, start, added, header, row, total, bye, main, add_abonent, delete_abonent,
  search_by_name, choose, print_all, is_empty, find_empty, read_field,
}
use eltex_school.Phonebook.Invariant.{occupied, IsValid}
use eltex_school.Phonebook.Delete.{delete-add}
use eltex_school.Phonebook.Search.{Printed, Matches, search_rows}
use eltex_school.Phonebook.Menu.{main-IsValid}

abbrev junk : Junk
junk = record { index = pos 0; search_name = [] }

abbrev ann : Abonent
ann = record { name = codes "Ann"; second_name = codes "Lee"; tel = codes "555" }

abbrev session : Text
session = codes "1 Ann Lee 555 4 5 "

abbrev one_entry : Book
one_entry = (add_abonent start (codes " Ann Lee 555")).0

session_runs :
    main 5 junk (pos 0) session
    ≡ some (one_entry, added 0 ∷ header ∷ row 0 ann ∷ total 1 ∷ bye ∷ [])
unfolding main choose add_abonent find_empty read_field print_all scan_int scan_word is_empty
session_runs = refl

start-IsValid_here : IsValid start
unfolding occupied is_empty
start-IsValid_here = record { slots = refl; counted = refl }

main-IsValid_example : IsValid one_entry
main-IsValid_example = main-IsValid 5 junk (pos 0) session one_entry _ session_runs

delete-add_example : (delete_abonent junk one_entry (codes "0")).0 ≡ start
unfolding scan_int scan_word add_abonent is_empty skip_space find_empty
delete-add_example =
    delete-add junk start (codes " Ann Lee 555") (codes "0") 0 start-IsValid_here refl refl refl

search_rows_example :
    ((search_by_name junk one_entry (codes "Ann")).0 ≡ one_entry)
    × ((k : ℕ) (e : Abonent)
        → Printed (row k e) (search_by_name junk one_entry (codes "Ann")).2
          ↔ Matches (codes "Ann") one_entry.phonebook k e)
unfolding scan_word
search_rows_example = search_rows junk one_entry (codes "Ann")
