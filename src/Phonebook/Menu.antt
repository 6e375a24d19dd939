-- ===== src/Phonebook/Menu.antt =====
-- The loop of `main`: what holds when it ends, and input on which it never ends.
use eltex_school.Base.{
  ℕ, suc, zero, ◌≡◌, ◌⊎◌, refl, true, false, List, some, none, [], ◌∷◌, arith, Option, inl, inr,
  Bool-cases, subst,
}
use eltex_school.Base.Int.{ℤ, pos, negsuc}
use eltex_school.Text.{Text, scan_int, skip_space, scan_word}
use eltex_school.Phonebook.{
  Book, Output, Junk, int_or, is_choice, choose, menu, add_abonent, add_at, delete_abonent,
  search_by_name, start, main, prepend, is_empty, init_phonebook, find_empty, read_abonent,
  read_field, delete_at,
}
use eltex_school.Phonebook.Invariant.{IsValid, HasWord, occupied}
use eltex_school.Phonebook.Add.{add-IsValid}
use eltex_school.Phonebook.Delete.{delete-IsValid}

-- Unless it adds an entry at the end of the input, a choice keeps the book valid.
pub choose-IsValid :
    (j : Junk) (c : ℤ) (b : Book) (s : Text)
    → IsValid b
    → (is_choice c 1 ≡ false) ⊎ HasWord s
    → IsValid (choose j c b s).0
unfolding choose search_by_name
choose-IsValid j c b s v h = ground (arith, v, h, delete-IsValid j b s v, add-IsValid b s v)

scan_word_end : (n : ℕ) (s : Text) → skip_space s ≡ [] → scan_word n s ≡ (none, [])
unfolding scan_word
scan_word_end n s h = ground arith

delete_at_rest : (b : Book) (s : Text) (i : ℤ) → (delete_at b s i).1 ≡ s
unfolding delete_at
delete_at_rest b s (negsuc i) = refl
delete_at_rest b s (pos i) = ground arith

add_at_end :
    (b : Book) (s : Text) (k : Option ℕ) → skip_space s ≡ [] → skip_space (add_at b s k).1 ≡ []
unfolding add_at read_abonent read_field skip_space scan_word
add_at_end b s none h = h
add_at_end b s (some k) h = rw (scan_word_end 9 s h) refl

scan_int_end : (s : Text) → skip_space s ≡ [] → scan_int s ≡ (none, [])
unfolding scan_int
scan_int_end s h = ground arith

-- No choice brings input back.
choose_end :
    (j : Junk) (c : ℤ) (b : Book) (s : Text)
    → skip_space s ≡ []
    → skip_space (choose j c b s).1 ≡ []
unfolding choose add_abonent delete_abonent search_by_name skip_space
choose_end j c b s h = ground (
  arith,
  add_at_end b s (find_empty 0 b.phonebook),
  delete_at_rest b (scan_int s).1 (int_or j.index (scan_int s).0),
  scan_word_end 9 s,
  scan_int_end s,
)

-- Once the input has ended, the loop never does, unless 5 was chosen.
pub menu_end :
    (k : ℕ) (j : Junk) (c : ℤ) (b : Book) (s : Text)
    → skip_space s ≡ []
    → is_choice c 5 ≡ false
    → menu k j c b s ≡ none
unfolding menu skip_space
menu_end zero j c b s h other = refl
menu_end (suc k) j c b s h other =
    rw (scan_int_end s h, other)
      (rw (menu_end k j c (choose j c b []).0 (choose j c b []).1 (choose_end j c b [] refl) other)
        refl)

-- Input that is no number is never consumed: the loop goes on for ever on the old choice.
pub menu_stuck :
    (k : ℕ) (j : Junk) (c : ℤ) (b : Book) (s : Text)
    → scan_int s ≡ (none, s)
    → is_choice c 1 ≡ false
    → is_choice c 2 ≡ false
    → is_choice c 3 ≡ false
    → is_choice c 5 ≡ false
    → menu k j c b s ≡ none
unfolding menu choose
menu_stuck zero j c b s h n1 n2 n3 n5 = refl
menu_stuck (suc k) j c b s h n1 n2 n3 n5 = ground (arith, menu_stuck k j c b s h n1 n2 n3 n5)

not_one_of_five : (c : ℤ) → is_choice c 5 ≡ true → is_choice c 1 ≡ false
not_one_of_five (pos n) h = ground arith
not_one_of_five (negsuc n) h = refl

-- Either the choice is not 1, or there is a word, or the input has ended.
add_cases : (c : ℤ) (s : Text) → ((is_choice c 1 ≡ false) ⊎ HasWord s) ⊎ (skip_space s ≡ [])
add_cases c s = split (skip_space s) refl
  where
    split :
        (t : Text) → skip_space s ≡ t → ((is_choice c 1 ≡ false) ⊎ HasWord s) ⊎ (skip_space s ≡ [])
    split [] q = inr q
    split (x ∷ t) q = inl (inr (rw q))

prepend-some :
    (os : List Output) (m : Option (Book × List Output)) {b' : Book} {os' : List Output}
    → prepend os m ≡ some (b', os')
    → (rest : List Output) × (m ≡ some (b', rest))
prepend-some os none e = ground arith
prepend-some os (some (b, rest)) e = (rest, ground arith)

module _ (j : Junk) (b' : Book) where
  menu-IsValid :
      (k : ℕ) (c : ℤ) (b : Book) (s : Text) (os : List Output)
      → IsValid b
      → menu k j c b s ≡ some (b', os)
      → IsValid b'
  unfolding menu
  menu-IsValid zero c b s os v e = ground arith
  menu-IsValid (suc k) c b s os v e = elim (Bool-cases (is_choice c' 5)) [
    | inl five ↦
        let last : (choose j c' b t).0 ≡ b' = ground arith in
        subst IsValid last (choose-IsValid j c' b t v (inl (not_one_of_five c' five)))
    | inr other ↦ elim (add_cases c' t) [
      | inl fine ↦
          let (rest, next) =
            prepend-some (choose j c' b t).2 (menu k j c' (choose j c' b t).0 (choose j c' b t).1)
              (rw other at e) in
          menu-IsValid k c' _ _ rest (choose-IsValid j c' b t v fine) next
      | inr ended ↦ absurd (
          ground (
            arith,
            menu_end k j c' (choose j c' b t).0 (choose j c' b t).1 (choose_end j c' b t ended),
          ))
    ]
  ]
    where
      c' : ℤ
      c' = int_or c (scan_int s).0

      t : Text
      t = (scan_int s).1

start-IsValid : IsValid (init_phonebook start)
unfolding init_phonebook occupied is_empty
start-IsValid = record { slots = refl; counted = refl }

-- When the program ends, whatever was typed, the book has its 100 slots and the count is the number
-- of taken ones.
pub main-IsValid :
    (fuel : ℕ) (j : Junk) (c : ℤ) (s : Text) (b' : Book) (os : List Output)
    → main fuel j c s ≡ some (b', os)
    → IsValid b'
unfolding main
main-IsValid fuel j c s b' os e =
    menu-IsValid j b' fuel c (init_phonebook start) s os start-IsValid e
