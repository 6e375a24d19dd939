-- ===== src/Phonebook/Delete.antt =====
-- What `delete_abonent` does, on every branch, and `delete_abonent` after `add_abonent`.
use eltex_school.Base.{
  ℕ, suc, zero, ◌+◌, ◌-◌, ◌≡◌, refl, List, [], ◌∷◌, arith, get_or, get_or-set, set, length-set,
  if◌then◌else◌, leb, ap, sym, ◌≢◌, inl, inr, Bool-cases,
}
use eltex_school.Base.Int.{ℤ, pos, negsuc}
use eltex_school.Text.{Text, scan_int}
use eltex_school.Phonebook.{
  max_abonents, Abonent, blank, Book, bad_index, already_empty, deleted, is_empty, Junk, added,
  int_or, delete_at, delete_abonent, add_abonent, read_abonent,
}
use eltex_school.Phonebook.Invariant.{
  occupied-set, IsValid, FirstEmpty, HasWord, read_abonent_taken,
}
use eltex_school.Phonebook.Add.{add_full, add_lem, blank_of_empty}

-- The slot that the user names is cleared if it is in range and taken; else nothing changes.
pub delete_lem :
    (j : Junk) (b : Book) (s : Text) (k : ℕ)
    → b.abonent_count ≢ 0
    → int_or j.index (scan_int s).0 ≡ pos k
    → delete_abonent j b s ≡ (
        if leb max_abonents k
        then (b, (scan_int s).1, bad_index ∷ [])
        else if is_empty (get_or b.phonebook k blank)
        then (b, (scan_int s).1, already_empty k ∷ [])
        else (
          record { phonebook = set b.phonebook k blank; abonent_count = b.abonent_count - 1 },
          (scan_int s).1,
          deleted k ∷ [],
        ))
unfolding delete_abonent
delete_lem j b s k some_left e = ground arith

delete_at-IsValid : (b : Book) (s : Text) (i : ℤ) → IsValid b → IsValid (delete_at b s i).0
unfolding delete_at is_empty
delete_at-IsValid b s (negsuc i) v = v
delete_at-IsValid b s (pos i) v =
    ground
      (arith, v.slots, v.counted, length-set b.phonebook i blank, occupied-set b.phonebook i blank)

pub delete-IsValid : (j : Junk) (b : Book) (s : Text) → IsValid b → IsValid (delete_abonent j b s).0
unfolding delete_abonent
delete-IsValid j b s v =
    ground (arith, v, delete_at-IsValid b (scan_int s).1 (int_or j.index (scan_int s).0) v)

set-set_undo :
    (es : List Abonent) (k : ℕ) (e v : Abonent) → get_or es k v ≡ v → set (set es k e) k v ≡ es
set-set_undo [] k e v h = refl
set-set_undo (x ∷ es) zero e v h = ap (λ y. y ∷ es) (sym h)
set-set_undo (x ∷ es) (suc k) e v h = ap (λ ys. x ∷ ys) (set-set_undo es k e v h)

module _ (j : Junk) (b : Book) (s t : Text) where
  delete-filled :
      (k : ℕ)
      → IsValid b
      → HasWord s
      → FirstEmpty b.phonebook k
      → int_or j.index (scan_int t).0 ≡ pos k
      → (delete_abonent j
          (record {
            phonebook = set b.phonebook k (read_abonent blank s).0;
            abonent_count = b.abonent_count + 1;
          })
          t).0
        ≡ b
  delete-filled k v h f named = ground (
    arith,
    f.within,
    v.slots,
    blank_of_empty _ f.free,
    read_abonent_taken blank s h,
    set-set_undo b.phonebook k (read_abonent blank s).0 blank,
    get_or-set b.phonebook k (read_abonent blank s).0 blank,
    delete_lem j
        (record {
          phonebook = set b.phonebook k (read_abonent blank s).0;
          abonent_count = b.abonent_count + 1;
        })
        t k,
  )

  -- In a valid book with input left, deleting the slot that `add_abonent` just reported as filled
  -- gives the book back.
  pub delete-add :
      (k : ℕ)
      → IsValid b
      → HasWord s
      → (add_abonent b s).2 ≡ added k ∷ []
      → int_or j.index (scan_int t).0 ≡ pos k
      → (delete_abonent j (add_abonent b s).0 t).0 ≡ b
  delete-add k v h filled named = elim (Bool-cases (leb max_abonents b.abonent_count)) [
    | inl over ↦ absurd (ground (arith, add_full b s))
    | inr room ↦
        let (k', f, e) = add_lem s v (ground arith) in
        let same : k' ≡ k = ground arith in rw e (delete-filled k' v h f (rw same named))
  ]
