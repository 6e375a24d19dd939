-- ===== src/LinkedBook/Tests.antt =====
-- The theorems of the linked book at concrete lists.
use eltex_school.Base.{ℕ, ◌≡◌, refl, none, some, List, [], ◌∷◌, arith}
use eltex_school.Text.{codes}
use eltex_school.Phonebook.{Abonent}
use eltex_school.LinkedBook.{Heap, Book, write}
use eltex_school.LinkedBook.Menu.{free_all}
use eltex_school.LinkedBook.Chain.{IsBook}
use eltex_school.LinkedBook.Free.{Without, free_all_lem}
use eltex_school.LinkedBook.Menu.{choose}
use eltex_school.LinkedBook.Spec.{chosen}
use eltex_school.LinkedBook.Spec.Refines.{Refined}
use eltex_school.LinkedBook.Spec.Choose.{choose-Refined}
use eltex_school.Phonebook.{Junk}
use eltex_school.Base.Int.{pos}

abbrev ann : Abonent
ann = record { name = codes "Ann"; second_name = codes "Lee"; tel = codes "555" }

abbrev bob : Abonent
bob = record { name = codes "Bob"; second_name = codes "Ray"; tel = codes "777" }

abbrev two_nodes : Heap
two_nodes =
    write (write (λ x. none) 7 (some (record { entry = ann; prev = none; next = some 9 }))) 9
      (some (record { entry = bob; prev = some 7; next = none }))

abbrev book : Book
book = record { heap = two_nodes; head = some 7; tail = some 9; abonent_count = 2 }

abbrev entries : List (ℕ × Abonent)
entries = (7, ann) ∷ (9, bob) ∷ []

book-IsBook : IsBook book entries
book-IsBook = record {
  chain = (refl, (some 9, refl, (refl, (none, refl, refl))));
  end = refl;
  apart = (((λ q. omega (arith, q)), tt), (tt, tt));
  counted = refl;
}

free_all_lem_example :
    (t : Heap) × (free_all 2 book
      ≡ some (record { heap = t; head = none; tail = none; abonent_count = 0 }))
    × Without book.heap t entries
free_all_lem_example = free_all_lem 2 book entries book-IsBook (omega arith)

abbrev junk : Junk
junk = record { index = pos 0; search_name = [] }

choose-Refined_example :
    Refined
      (choose 2 (some 12) ann junk (pos 2) book (codes "1"))
      (chosen (some 12) ann junk (pos 2) (ann ∷ bob ∷ []) (codes "1"))
choose-Refined_example =
    choose-Refined 2 (some 12) ann junk (pos 2) book (codes "1") entries book-IsBook (omega arith)
      refl
