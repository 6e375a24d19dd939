-- ===== src/LinkedBook/Print.antt =====
-- What the loops over the list print, and the fuel that they need.
use eltex_school.Base.{
  ℕ, zero, suc, ◌+◌, ◌≤◌, ◌≡◌, refl, ap, ◌∙◌, subst, none, some, List, [], ◌∷◌, ◌++◌, arith, length,
}
use eltex_school.Phonebook.{Abonent}
use eltex_school.LinkedBook.{Pointer, Heap, Book, Output, row, header, total, is_nil, rows}
use eltex_school.LinkedBook.Menu.{print_from, print_all}
use eltex_school.LinkedBook.Chain.{IsChain, IsBook}

-- The rows of the entries, numbered from `i` on.
abbrev pub numbered : ℕ → List (ℕ × Abonent) → List Output
numbered i [] = []
numbered i ((a, e) ∷ xs) = row i e ∷ numbered (i + 1) xs

pub rows-numbered :
    (fuel i : ℕ) (h : Heap) (prev first : Pointer) (xs : List (ℕ × Abonent))
    → IsChain h prev first xs
    → length xs ≤ fuel
    → rows fuel h i first ≡ some (numbered i xs)
unfolding rows
rows-numbered fuel i h prev first [] c l = rw c refl
rows-numbered zero i h prev first ((a, e) ∷ xs) c l = elim l [ ]
rows-numbered (suc fuel) i h prev first ((a, e) ∷ xs) (q, (next, here, rest)) l =
    let later = rows-numbered fuel (i + 1) h (some a) next xs rest (omega (arith, l)) in
    rw (q, here, later, rows) refl

abbrev pub listing : List (ℕ × Abonent) → List Output
listing [] = is_nil ∷ []
listing (x ∷ xs) = (header ∷ numbered 0 (x ∷ xs)) ++ total (length (x ∷ xs)) ∷ []

print_from-some :
    (fuel : ℕ) (b : Book) (first : ℕ) (os : List Output)
    → rows fuel b.heap 0 (some first) ≡ some os
    → print_from fuel b (some first) ≡ some ((header ∷ os) ++ total b.abonent_count ∷ [])
unfolding print_from
print_from-some fuel b first os e = rw (e, print_from) refl

-- In a book that is linked in order, and with fuel for each entry, all entries are printed in order
-- and numbered from 0, and the count is their number; an empty book is said to be empty.
pub print_all_lem :
    (fuel : ℕ) (b : Book) (xs : List (ℕ × Abonent))
    → IsBook b xs
    → length xs ≤ fuel
    → print_all fuel b ≡ some (listing xs)
unfolding print_all
print_all_lem fuel b [] v l = ap (λ p. print_from fuel b p) v.chain ∙ (unfold print_from in refl)
print_all_lem fuel b ((a, e) ∷ xs) v l =
    let all = rows-numbered fuel 0 b.heap none b.head ((a, e) ∷ xs) v.chain l in
    ap (λ p. print_from fuel b p) v.chain.0
    ∙ print_from-some fuel b a (numbered 0 ((a, e) ∷ xs))
        (subst (λ p. rows fuel b.heap 0 p ≡ some (numbered 0 ((a, e) ∷ xs))) v.chain.0 all)
    ∙ ap (λ n. some ((header ∷ numbered 0 ((a, e) ∷ xs)) ++ total n ∷ [])) v.counted
