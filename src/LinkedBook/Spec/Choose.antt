-- ===== src/LinkedBook/Spec/Choose.antt =====
-- The choices of the menu on the heap and on the list of entries.
use eltex_school.Base.{
  ℕ, ◌≡◌, ◌≤◌, refl, ap, ◌∙◌, none, some, List, [], ◌∷◌, length, Bool-cases, inl, inr,
}
use eltex_school.Base.Int.{ℤ}
use eltex_school.Text.{Text, scan_word}
use eltex_school.Phonebook.{Abonent, Junk, field_or, is_choice}
use eltex_school.LinkedBook.{Pointer, Heap, Book, Output, Result, unknown_choice, freed, bye}
use eltex_school.LinkedBook.Menu.{search_by_name, print_all, free_all, choose, or_not_found}
use eltex_school.LinkedBook.Chain.{IsBook}
use eltex_school.LinkedBook.Print.{print_all_lem}
use eltex_school.LinkedBook.Free.{free_all_lem}
use eltex_school.LinkedBook.Spec.{printed, entry_matches, chosen}
use eltex_school.LinkedBook.Spec.Refines.{
  entries_of, Refined, Fresh, stays, add_abonent-Refined, delete_abonent-Refined, listing-printed,
  matches-entry_matches, search_by_name-steps,
}

abbrev printing_all : (b : Book) → Text → (fuel : ℕ) → Result
printing_all b s fuel = elim (print_all fuel b) [ none ↦ none | some os ↦ some (b, s, os) ]

abbrev freeing_all : (b : Book) → Text → (fuel : ℕ) → Result
freeing_all b s fuel = elim (free_all fuel b) [
  | none ↦ none
  | some b' ↦ some (b', s, freed ∷ bye ∷ [])
]

printing_all-some :
    (b : Book) (s : Text) (fuel : ℕ) (os : List Output)
    → print_all fuel b ≡ some os
    → printing_all b s fuel ≡ some (b, s, os)
printing_all-some b s fuel os e = rw (e, printing_all) refl

freeing_all-some :
    (b b' : Book) (s : Text) (fuel : ℕ)
    → free_all fuel b ≡ some b'
    → freeing_all b s fuel ≡ some (b', s, freed ∷ bye ∷ [])
freeing_all-some b b' s fuel e = rw (e, freeing_all) refl

empty-IsBook :
    (t : Heap) → IsBook (record { heap = t; head = none; tail = none; abonent_count = 0 }) []
empty-IsBook t = record { chain = refl; end = refl; apart = tt; counted = refl }

-- In a book that is linked in order, with fuel for each entry and memory from `malloc` that is not
-- in use, every choice of the menu does what it promises on the list of entries: it leaves these
-- entries, linked in order, takes this much of the input, prints this, and uses no memory that is
-- not allocated.
pub choose-Refined :
    (fuel : ℕ) (malloc : Pointer) (junk : Abonent) (j : Junk) (c : ℤ) (b : Book) (s : Text)
    (xs : List (ℕ × Abonent))
    → IsBook b xs
    → length xs ≤ fuel
    → Fresh malloc b
    → Refined (choose fuel malloc junk j c b s) (chosen malloc junk j c (entries_of xs) s)
unfolding choose chosen
choose-Refined fuel malloc junk j c b s xs v l f = elim (Bool-cases (is_choice c 1)) [
  | inl c1 ↦ rw c1 (add_abonent-Refined b xs v malloc junk s f)
  | inr c1 ↦ elim (Bool-cases (is_choice c 2)) [
    | inl c2 ↦ rw (c1, c2) (delete_abonent-Refined fuel j s b xs v l)
    | inr c2 ↦ elim (Bool-cases (is_choice c 3)) [
      | inl c3 ↦
          let w = field_or j.search_name (scan_word 9 s).0 in
          let os = entry_matches w 0 (entries_of xs) in
          rw (c1, c2, c3)
            (stays b xs v (search_by_name fuel j b s) (scan_word 9 s).1 (or_not_found w os) (
              search_by_name-steps fuel j b s os
                (matches-entry_matches fuel 0 b.heap w none b.head xs v.chain l)))
      | inr c3 ↦ elim (Bool-cases (is_choice c 4)) [
        | inl c4 ↦
            rw (c1, c2, c3, c4)
              (stays b xs v (printing_all b s fuel) s (printed (entries_of xs)) (
                printing_all-some b s fuel (printed (entries_of xs))
                  (print_all_lem fuel b xs v l ∙ ap some (listing-printed xs))))
        | inr c4 ↦ elim (Bool-cases (is_choice c 5)) [
          | inl c5 ↦
              let (t, done, w) = free_all_lem fuel b xs v l in
              rw (c1, c2, c3, c4, c5)
                (record {
                  book = record { heap = t; head = none; tail = none; abonent_count = 0 };
                  nodes = [];
                  linked = empty-IsBook t;
                  entries = refl;
                  done = freeing_all-some b _ s fuel done;
                })
          | inr c5 ↦
              rw (c1, c2, c3, c4, c5)
                (stays b xs v (some (b, s, unknown_choice ∷ [])) s (unknown_choice ∷ []) refl)
        ]
      ]
    ]
  ]
]
