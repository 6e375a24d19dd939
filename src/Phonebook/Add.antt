-- ===== src/Phonebook/Add.antt =====
-- What `add_abonent` does, on every branch.
use eltex_school.Base.{
  ◌+◌, ◌<◌, ◌≤◌, ◌≡◌, ℕ, inl, inr, true, [], ◌∷◌, arith, get_or, set, length-set,
}
use eltex_school.Text.{Text, skip_space}
use eltex_school.Phonebook.{
  max_abonents, Abonent, blank, Book, full, added, is_empty, read_abonent, add_at, add_abonent,
}
use eltex_school.Phonebook.Invariant.{
  occupied, occupied-set, IsValid, FirstEmpty, find_empty_cases, HasWord, read_abonent_taken,
  read_abonent_end,
}

pub blank_of_empty : (e : Abonent) → is_empty e ≡ true → e ≡ blank
unfolding is_empty
blank_of_empty e h = ground arith

-- A full book is left alone.
pub add_full :
    (b : Book) (s : Text) → max_abonents ≤ b.abonent_count → add_abonent b s ≡ (b, s, full ∷ [])
unfolding add_abonent
add_full b s h = ground arith

-- Otherwise the record read from the input goes into the first empty slot, which exists.
pub add_lem :
    {b : Book} (s : Text)
    → IsValid b
    → b.abonent_count < max_abonents
    → (k : ℕ) × FirstEmpty b.phonebook k
      × (add_abonent b s ≡ (
        record {
          phonebook = set b.phonebook k (read_abonent blank s).0;
          abonent_count = b.abonent_count + 1;
        },
        (read_abonent blank s).1,
        added k ∷ [],
      ))
unfolding add_abonent
add_lem {b} s v room = elim (find_empty_cases b.phonebook) [
  | inl (e, taken) ↦ absurd (omega (arith, v.slots, v.counted))
  | inr (k, e, f) ↦
      let old : get_or b.phonebook k blank ≡ blank = blank_of_empty _ f.free in
      (k, f, ground (arith, old, e))
]

pub add-IsValid : (b : Book) (s : Text) → IsValid b → HasWord s → IsValid (add_abonent b s).0
unfolding add_abonent
add-IsValid b s v h = elim (find_empty_cases b.phonebook) [
  | inl (e, taken) ↦ rw (e, add_at) (ground arith)
  | inr (k, e, f) ↦
      rw (e, add_at)
        (ground (
          arith,
          f.within,
          f.free,
          v.slots,
          v.counted,
          length-set b.phonebook k (read_abonent (get_or b.phonebook k blank) s).0,
          occupied-set b.phonebook k (read_abonent (get_or b.phonebook k blank) s).0,
          read_abonent_taken (get_or b.phonebook k blank) s,
        ))
]

-- At the end of the input the count grows and no slot is taken.
pub add_end_miscounts :
    {b : Book} (s : Text)
    → IsValid b
    → b.abonent_count < max_abonents
    → skip_space s ≡ []
    → ((add_abonent b s).0.abonent_count ≡ occupied (add_abonent b s).0.phonebook + 1)
unfolding is_empty
add_end_miscounts {b} s v room h =
    let (k, f, e) = add_lem s v room in
    let same = read_abonent_end blank s h in
    rw e (rw same (ground (arith, f.within, f.free, v.counted, occupied-set b.phonebook k blank)))
