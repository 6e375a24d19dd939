-- ===== src/Phonebook/Invariant.antt =====
-- The count of the book against its slots, and what each operation does to both.
use eltex_school.Base.{
  ℕ, zero, suc, ◌+◌, ◌≤◌, ◌<◌, ◌≡◌, refl, ◌⊎◌, inl, inr, true, false, none, some, List, [], ◌∷◌,
  arith, length, get_or, set, if◌then◌else◌, Option-cases, Bool-cases, subst,
}
use eltex_school.Text.{Text, scan_word, skip_space, is_space}
use eltex_school.Phonebook.{
  max_abonents, Abonent, blank, Book, is_empty, is_nil, find_empty, read_field, read_abonent,
}

-- How many slots are taken.
unfoldable pub occupied : List Abonent → ℕ
occupied [] = 0
occupied (e ∷ es) = (if is_empty e then 0 else 1) + occupied es

pub record IsValid (b : Book) : Type 0 where
  pub slots : length b.phonebook ≡ max_abonents
  pub counted : b.abonent_count ≡ occupied b.phonebook

pub occupied-le : (es : List Abonent) → occupied es ≤ length es
unfolding occupied
occupied-le [] = omega arith
occupied-le (e ∷ es) = ground (arith, occupied-le es)

-- A write changes the count by the slot it replaces.
pub occupied-set :
    (es : List Abonent) (i : ℕ) (v : Abonent)
    → i < length es
    → occupied (set es i v) + (if is_empty (get_or es i blank) then 0 else 1)
      ≡ occupied es + (if is_empty v then 0 else 1)
unfolding occupied
occupied-set [] i v h = elim h [ ]
occupied-set (e ∷ es) zero v h = omega arith
occupied-set (e ∷ es) (suc i) v h = omega (arith, occupied-set es i v (omega arith))

find_empty-none : (i : ℕ) (es : List Abonent) → find_empty i es ≡ none → occupied es ≡ length es
unfolding find_empty occupied
find_empty-none i [] h = refl
find_empty-none i (e ∷ es) h = ground (arith, find_empty-none (i + 1) es)

-- The first empty slot: in range, empty, and behind taken slots only.
pub record FirstEmpty (es : List Abonent) (k : ℕ) : Type 0 where
  pub within : k < length es
  pub free : is_empty (get_or es k blank) ≡ true
  pub first : (n : ℕ) → n < k → is_empty (get_or es n blank) ≡ false

FirstEmpty-cons :
    {e : Abonent} {es : List Abonent} {d : ℕ}
    → is_empty e ≡ false
    → FirstEmpty es d
    → FirstEmpty (e ∷ es) (suc d)
FirstEmpty-cons {e} {es} {d} taken f = record {
  within = omega (arith, f.within);
  free = f.free;
  first = earlier;
}
  where
    earlier : (n : ℕ) → n < suc d → is_empty (get_or (e ∷ es) n blank) ≡ false
    earlier zero lt = taken
    earlier (suc n) lt = f.first n (omega arith)

find_empty-some :
    (i k : ℕ) (es : List Abonent)
    → find_empty i es ≡ some k
    → (d : ℕ) × (k ≡ i + d) × FirstEmpty es d
unfolding find_empty
find_empty-some i k [] h = ground arith
find_empty-some i k (e ∷ es) h = elim (Bool-cases (is_empty e)) [
  | inl free ↦
      (0, ground arith, record { within = omega arith; free = free; first = λ n lt. elim lt [ ] })
  | inr taken ↦
      let (d, q, f) = find_empty-some (i + 1) k es (ground arith) in
      (suc d, omega arith, FirstEmpty-cons taken f)
]

-- What `add_abonent` finds, as one statement.
pub find_empty_cases :
    (es : List Abonent)
    → (find_empty 0 es ≡ none) × (occupied es ≡ length es)
      ⊎ ((k : ℕ) × (find_empty 0 es ≡ some k) × FirstEmpty es k)
find_empty_cases es = elim (Option-cases (find_empty 0 es)) [
  | inl e ↦ inl (e, find_empty-none 0 es e)
  | inr (k, e) ↦
      let (d, q, f) = find_empty-some 0 k es e in
      let q' : d ≡ k = omega arith in inr (k, e, subst (FirstEmpty es) q' f)
]

-- Input that still has a word gives a name, and so a taken slot; at its end no field is read.
abbrev pub HasWord : Text → Type 0
HasWord s = is_nil (skip_space s) ≡ false

skip_space_head : (c : ℕ) (s r : Text) → skip_space s ≡ c ∷ r → is_space c ≡ false
unfolding skip_space
skip_space_head c [] r h = ground arith
skip_space_head c (d ∷ s) r h = ground (arith, skip_space_head c s r)

pub read_abonent_taken :
    (e : Abonent) (s : Text) → HasWord s → is_empty (read_abonent e s).0 ≡ false
unfolding is_empty read_abonent read_field scan_word
read_abonent_taken e s h = named (skip_space s) refl h
  where
    named : (t : Text) → skip_space s ≡ t → is_nil t ≡ false → is_empty (read_abonent e s).0 ≡ false
    named [] q h = ground arith
    named (c ∷ r) q h = rw q (ground (arith, skip_space_head c s r))

pub read_abonent_end : (e : Abonent) (s : Text) → skip_space s ≡ [] → (read_abonent e s).0 ≡ e
unfolding read_abonent read_field scan_word
read_abonent_end e s h = ground arith
