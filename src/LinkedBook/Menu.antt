-- ===== src/LinkedBook/Menu.antt =====
-- lab6/task.c: searching, printing, freeing, and the menu of `main`.
use eltex_school.Base.{ℕ, zero, suc, ◌+◌, Option, none, some, List, [], ◌∷◌, ◌++◌, if◌then◌else◌}
use eltex_school.Base.Int.{ℤ}
use eltex_school.Text.{Text, str_eq, scan_int, scan_word}
use eltex_school.Phonebook.{Abonent, Junk, int_or, field_or, is_choice}
use eltex_school.LinkedBook.{
  Pointer, Heap, write, Book, Output, is_nil, header, unknown_choice, freed, bye, total, row,
  not_found, Result, rows, add_abonent, delete_abonent,
}

-- The loop of `search_by_name`.
unfoldable pub matches : ℕ → Heap → Text → ℕ → Pointer → Option (List Output)
matches fuel h w index none = some []
matches zero h w index (some a) = none
matches (suc fuel) h w index (some a) = elim (h a) [
  | none ↦ none
  | some x ↦ elim (matches fuel h w (index + 1) x.next) [
    | none ↦ none
    | some os ↦ some (if str_eq x.entry.name w then row index x.entry ∷ os else os)
  ]
]

abbrev pub or_not_found : Text → List Output → List Output
or_not_found w [] = not_found w ∷ []
or_not_found w (o ∷ os) = o ∷ os

unfoldable pub search_by_name : (fuel : ℕ) → Junk → Book → Text → Result
unfolding matches
search_by_name fuel j b s =
    let word = scan_word 9 s in
    let w = field_or j.search_name word.0 in
    elim (matches fuel b.heap w 0 b.head) [
      | none ↦ none
      | some os ↦ some (b, word.1, or_not_found w os)
    ]

unfoldable pub print_from : (fuel : ℕ) → Book → (head : Pointer) → Option (List Output)
unfolding rows
print_from fuel b none = some (is_nil ∷ [])
print_from fuel b (some first) = elim (rows fuel b.heap 0 (some first)) [
  | none ↦ none
  | some os ↦ some ((header ∷ os) ++ total b.abonent_count ∷ [])
]

unfoldable pub print_all : (fuel : ℕ) → Book → Option (List Output)
unfolding print_from
print_all fuel b = print_from fuel b b.head

-- The loop of `free_all`.
unfoldable pub free_from : ℕ → Heap → Pointer → Option Heap
free_from fuel h none = some h
free_from zero h (some a) = none
free_from (suc fuel) h (some a) = elim (h a) [
  | none ↦ none
  | some x ↦ free_from fuel (write h a none) x.next
]

unfoldable pub free_all : (fuel : ℕ) → Book → Option Book
unfolding free_from
free_all fuel b = elim (free_from fuel b.heap b.head) [
  | none ↦ none
  | some h ↦ some (record { heap = h; head = none; tail = none; abonent_count = 0 })
]

-- The `switch` of `main`.
unfoldable pub choose :
    (fuel : ℕ) → (malloc : Pointer) → (junk : Abonent) → Junk → ℤ → Book → Text → Result
unfolding add_abonent delete_abonent search_by_name print_all free_all
choose fuel malloc junk j c b s =
    if is_choice c 1
    then add_abonent malloc junk b s
    else if is_choice c 2
    then delete_abonent fuel j b s
    else if is_choice c 3
    then search_by_name fuel j b s
    else if is_choice c 4
    then elim (print_all fuel b) [ none ↦ none | some os ↦ some (b, s, os) ]
    else if is_choice c 5
    then elim (free_all fuel b) [ none ↦ none | some b' ↦ some (b', s, freed ∷ bye ∷ []) ]
    else some (b, s, unknown_choice ∷ [])

abbrev pub prepend : List Output → Option (Book × List Output) → Option (Book × List Output)
prepend os none = none
prepend os (some (b, rest)) = some (b, os ++ rest)

-- The loop of `main`, on fuel: `malloc k` is what `malloc` returns when `k` rounds are left.
unfoldable pub menu :
    (rounds fuel : ℕ)
    → (malloc : ℕ → Pointer) → (junk : Abonent) → Junk
    → ℤ
    → Book
    → Text
    → Option (Book × List Output)
unfolding choose
menu zero fuel malloc junk j c b s = none
menu (suc k) fuel malloc junk j c b s =
    let line = scan_int s in
    let c' = int_or c line.0 in
    elim (choose fuel (malloc k) junk j c' b line.1) [
      | none ↦ none
      | some (b', s', os) ↦
          let rest = prepend os (menu k fuel malloc junk j c' b' s') in
          if is_choice c' 5 then some (b', os) else rest
    ]
