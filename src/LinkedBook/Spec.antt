-- ===== src/LinkedBook/Spec.antt =====
-- What the linked book promises, on the list of its entries: no addresses, no links.
pub mod Refines
pub mod Choose
use eltex_school.Base.{
  ℕ, zero, suc, ◌+◌, ◌-◌, Bool, true, false, Option, none, some, List, [], ◌∷◌, ◌++◌, leb,
  if◌then◌else◌, length,
}
use eltex_school.Base.Int.{ℤ, pos, negsuc}
use eltex_school.Text.{Text, str_eq, scan_int, scan_word}
use eltex_school.Phonebook.{Abonent, Junk, read_abonent, int_or, field_or, is_choice}
use eltex_school.LinkedBook.{
  Pointer, Output, row, header, total, is_nil, no_memory, added, deleted, bad_number,
  nothing_to_delete, freed, bye, unknown_choice,
}
use eltex_school.LinkedBook.Menu.{or_not_found}
use eltex_school.LinkedBook.Delete.{without}

-- The entries, the input left, and what is printed.
abbrev pub Outcome : Type 0
Outcome = List Abonent × Text × List Output

abbrev pub entry_rows : ℕ → List Abonent → List Output
entry_rows i [] = []
entry_rows i (e ∷ es) = row i e ∷ entry_rows (i + 1) es

abbrev pub adding : Pointer → Abonent → List Abonent → Text → Outcome
adding none junk es s = (es, s, no_memory ∷ [])
adding (some a) junk es s =
    let e = read_abonent junk s in (es ++ e.0 ∷ [], e.1, added (length es + 1) ∷ [])

abbrev pub deleting_at : ℤ → List Abonent → Text → List Output → Outcome
deleting_at (negsuc n) es s os = (es, s, os ++ bad_number ∷ [])
deleting_at (pos n) es s os =
    if leb (length es) n
    then (es, s, os ++ bad_number ∷ [])
    else (without n es, s, os ++ deleted (length es - 1) ∷ [])

abbrev pub deleting : Junk → List Abonent → Text → Outcome
deleting j [] s = ([], s, nothing_to_delete ∷ [])
deleting j (e ∷ es) s =
    let line = scan_int s in
    deleting_at (int_or j.index line.0) (e ∷ es) line.1 (header ∷ entry_rows 0 (e ∷ es))

abbrev pub entry_matches : Text → ℕ → List Abonent → List Output
entry_matches w i [] = []
entry_matches w i (e ∷ es) =
    let rest = entry_matches w (i + 1) es in if str_eq e.name w then row i e ∷ rest else rest

abbrev pub searching : Junk → List Abonent → Text → Outcome
searching j es s =
    let word = scan_word 9 s in
    let w = field_or j.search_name word.0 in (es, word.1, or_not_found w (entry_matches w 0 es))

abbrev pub printed : List Abonent → List Output
printed [] = is_nil ∷ []
printed (e ∷ es) = (header ∷ entry_rows 0 (e ∷ es)) ++ total (length (e ∷ es)) ∷ []

unfoldable pub chosen : Pointer → (junk : Abonent) → Junk → ℤ → List Abonent → Text → Outcome
chosen malloc junk j c es s =
    if is_choice c 1
    then adding malloc junk es s
    else if is_choice c 2
    then deleting j es s
    else if is_choice c 3
    then searching j es s
    else if is_choice c 4
    then (es, s, printed es)
    else if is_choice c 5
    then ([], s, freed ∷ bye ∷ [])
    else (es, s, unknown_choice ∷ [])
