-- ===== src/LinkedBook/Spec/Refines.antt =====
-- The operations on the heap and those on the list of entries.
use eltex_school.Base.{
  ℕ, zero, suc, ◌+◌, ◌-◌, ◌≡◌, ◌<◌, ◌≤◌, refl, ap, ap₂, ◌∙◌, subst, sym, true, none, some, List, [],
  ◌∷◌, ◌++◌, leb, length, length-append, arith, Bool-cases, inl, inr,
}
use eltex_school.Base.Int.{ℤ, pos, negsuc}
use eltex_school.Text.{Text, scan_int, scan_word}
use eltex_school.Phonebook.{Abonent, Junk, read_abonent, int_or, field_or}
use eltex_school.LinkedBook.{
  Pointer, Heap, Book, Output, Result, row, header, total, added, deleted, no_memory, bad_number,
  nothing_to_delete, rows, link, add_abonent, delete_at, delete_from, delete_abonent, printing,
}
use eltex_school.LinkedBook.Menu.{matches, search_by_name, or_not_found}
use eltex_school.LinkedBook.Chain.{IsChain, IsBook}
use eltex_school.LinkedBook.Print.{numbered, rows-numbered, listing}
use eltex_school.LinkedBook.Link.{link-IsBook}
use eltex_school.LinkedBook.Delete.{without, length-without, delete_at-without}
use eltex_school.LinkedBook.Spec.{
  Outcome, entry_rows, adding, deleting_at, deleting, entry_matches, printed,
}

abbrev pub entries_of : List (ℕ × Abonent) → List Abonent
entries_of [] = []
entries_of ((a, e) ∷ xs) = e ∷ entries_of xs

length-entries_of : (xs : List (ℕ × Abonent)) → length (entries_of xs) ≡ length xs
length-entries_of [] = refl
length-entries_of ((a, e) ∷ xs) = ap suc (length-entries_of xs)

entries_of-append :
    (xs ys : List (ℕ × Abonent)) → entries_of (xs ++ ys) ≡ entries_of xs ++ entries_of ys
entries_of-append [] ys = refl
entries_of-append ((a, e) ∷ xs) ys = ap (λ l. e ∷ l) (entries_of-append xs ys)

entries_of-without :
    (n : ℕ) (xs : List (ℕ × Abonent)) → entries_of (without n xs) ≡ without n (entries_of xs)
entries_of-without n [] = refl
entries_of-without zero ((a, e) ∷ xs) = refl
entries_of-without (suc n) ((a, e) ∷ xs) = ap (λ l. e ∷ l) (entries_of-without n xs)

numbered-entry_rows :
    (i : ℕ) (xs : List (ℕ × Abonent)) → numbered i xs ≡ entry_rows i (entries_of xs)
numbered-entry_rows i [] = refl
numbered-entry_rows i ((a, e) ∷ xs) = ap (λ l. row i e ∷ l) (numbered-entry_rows (i + 1) xs)

pub listing-printed : (xs : List (ℕ × Abonent)) → listing xs ≡ printed (entries_of xs)
listing-printed [] = refl
listing-printed ((a, e) ∷ xs) =
    ap₂ (λ (os : List Output) (n : ℕ). (header ∷ row 0 e ∷ os) ++ total (suc n) ∷ [])
      (numbered-entry_rows 1 xs) (sym (length-entries_of xs))

pub matches-entry_matches :
    (fuel i : ℕ) (h : Heap) (w : Text) (prev first : Pointer) (xs : List (ℕ × Abonent))
    → IsChain h prev first xs
    → length xs ≤ fuel
    → matches fuel h w i first ≡ some (entry_matches w i (entries_of xs))
unfolding matches
matches-entry_matches fuel i h w prev first [] c l = rw c refl
matches-entry_matches zero i h w prev first ((a, e) ∷ xs) c l = elim l [ ]
matches-entry_matches (suc fuel) i h w prev first ((a, e) ∷ xs) (q, (next, here, rest)) l =
    let later = matches-entry_matches fuel (i + 1) h w (some a) next xs rest (omega (arith, l)) in
    rw (q, here, later, matches) refl

-- A result of the code that is an outcome of the list of entries, in a book that is linked in order.
pub record Refined (r : Result) (o : Outcome) : Type 0 where
  pub book : Book
  pub nodes : List (ℕ × Abonent)
  pub linked : IsBook book nodes
  pub entries : entries_of nodes ≡ o.0
  pub done : r ≡ some (book, o.1, o.2)

-- `malloc` returns memory that is not in use.
abbrev pub Fresh : Pointer → Book → Type 0
Fresh none b = Unit {0}
Fresh (some a) b = b.heap a ≡ none

module _ (b : Book) (xs : List (ℕ × Abonent)) (v : IsBook b xs) where
  pub stays :
      (r : Result) (s : Text) (os : List Output)
      → r ≡ some (b, s, os)
      → Refined r (entries_of xs, s, os)
  stays r s os e = record { book = b; nodes = xs; linked = v; entries = refl; done = e }

  counted_entries : b.abonent_count ≡ length (entries_of xs)
  counted_entries = v.counted ∙ sym (length-entries_of xs)

  add_abonent-steps :
      (a : ℕ) (junk : Abonent) (s : Text) (b' : Book)
      → link a (read_abonent junk s).0 b ≡ some b'
      → add_abonent (some a) junk b s
        ≡ some (b', (read_abonent junk s).1, added b'.abonent_count ∷ [])
  unfolding add_abonent
  add_abonent-steps a junk s b' e = rw (e, add_abonent) refl

  pub add_abonent-Refined :
      (malloc : Pointer) (junk : Abonent) (s : Text)
      → Fresh malloc b
      → Refined (add_abonent malloc junk b s) (adding malloc junk (entries_of xs) s)
  add_abonent-Refined none junk s f =
      stays (add_abonent none junk b s) s (no_memory ∷ []) (unfold add_abonent in refl)
  add_abonent-Refined (some a) junk s f =
      let e = read_abonent junk s in
      let (b', made, v') = link-IsBook a e.0 b xs v f in
      let count : b'.abonent_count ≡ length (entries_of xs) + 1 =
        omega (arith, v'.counted, length-append xs ((a, e.0) ∷ []), length-entries_of xs) in
      record {
        book = b';
        nodes = xs ++ (a, e.0) ∷ [];
        linked = v';
        entries = entries_of-append xs ((a, e.0) ∷ []);
        done = add_abonent-steps a junk s b' made ∙ ap (λ n. some (b', e.1, added n ∷ [])) count;
      }

delete_from-steps :
    (fuel a : ℕ) (j : Junk) (b : Book) (s : Text) (os : List Output)
    → rows fuel b.heap 0 (some a) ≡ some os
    → delete_from fuel j b s (some a)
      ≡ printing (header ∷ os) (delete_at b (scan_int s).1 (int_or j.index (scan_int s).0))
unfolding delete_from
delete_from-steps fuel a j b s os e = rw (e, delete_from) refl

delete_at-far :
    (b : Book) (s : Text) (n : ℕ)
    → leb b.abonent_count n ≡ true
    → delete_at b s (pos n) ≡ some (b, s, bad_number ∷ [])
unfolding delete_at
delete_at-far b s n e = rw (e, delete_at) refl

module _ (b : Book) (xs : List (ℕ × Abonent)) (v : IsBook b xs) where
  delete_at-Refined :
      (s : Text) (os : List Output) (c : ℤ)
      → Refined (printing os (delete_at b s c)) (deleting_at c (entries_of xs) s os)
  delete_at-Refined s os (negsuc n) =
      stays b xs v (printing os (delete_at b s (negsuc n))) s (os ++ bad_number ∷ [])
        (unfold delete_at in refl)
  delete_at-Refined s os (pos n) = elim (Bool-cases (leb (length (entries_of xs)) n)) [
    | inl far ↦
        let beyond : leb b.abonent_count n ≡ true =
          ap (λ m. leb m n) (counted_entries b xs v) ∙ far in
        rw far (
          stays b xs v (printing os (delete_at b s (pos n))) s (os ++ bad_number ∷ [])
            (ap (printing os) (delete_at-far b s n beyond)))
    | inr near ↦
        let inside : n < length xs = ground (arith, near, length-entries_of xs) in
        let (b', gone, v') = delete_at-without b xs s n v inside in
        let count : b'.abonent_count ≡ length (entries_of xs) - 1 =
          omega (arith, v'.counted, length-without n xs inside, length-entries_of xs) in
        rw near (record {
          book = b';
          nodes = without n xs;
          linked = v';
          entries = entries_of-without n xs;
          done = ap (printing os) gone ∙ ap (λ m. some (b', s, os ++ deleted m ∷ [])) count;
        })
  ]

pub delete_abonent-Refined :
    (fuel : ℕ) (j : Junk) (s : Text) (b : Book) (xs : List (ℕ × Abonent))
    → IsBook b xs
    → length xs ≤ fuel
    → Refined (delete_abonent fuel j b s) (deleting j (entries_of xs) s)
unfolding delete_abonent
delete_abonent-Refined fuel j s b [] v l =
    stays b [] v (delete_from fuel j b s b.head) s (nothing_to_delete ∷ [])
      (ap (delete_from fuel j b s) v.chain ∙ (unfold delete_from in refl))
delete_abonent-Refined fuel j s b ((a, e) ∷ xs) v l =
    let all = (a, e) ∷ xs in
    let line = scan_int s in
    let c = int_or j.index line.0 in
    let shown =
      subst (λ p. rows fuel b.heap 0 p ≡ some (numbered 0 all)) v.chain.0
        (rows-numbered fuel 0 b.heap none b.head all v.chain l) in
    let steps =
      ap (delete_from fuel j b s) v.chain.0
      ∙ delete_from-steps fuel a j b s (numbered 0 all) shown
      ∙ ap (λ os. printing (header ∷ os) (delete_at b line.1 c)) (numbered-entry_rows 0 all) in
    subst (λ r. Refined r (deleting j (entries_of all) s)) (sym steps)
      (delete_at-Refined b all v line.1 (header ∷ entry_rows 0 (entries_of all)) c)

pub search_by_name-steps :
    (fuel : ℕ) (j : Junk) (b : Book) (s : Text) (os : List Output)
    → matches fuel b.heap (field_or j.search_name (scan_word 9 s).0) 0 b.head ≡ some os
    → search_by_name fuel j b s
      ≡ some (b, (scan_word 9 s).1, or_not_found (field_or j.search_name (scan_word 9 s).0) os)
unfolding search_by_name
search_by_name-steps fuel j b s os e = rw (e, search_by_name) refl
