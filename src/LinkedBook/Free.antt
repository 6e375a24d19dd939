-- ===== src/LinkedBook/Free.antt =====
-- Freeing the nodes at the end of the program.
use eltex_school.Base.{
  ℕ, zero, suc, ◌≤◌, ◌≡◌, ◌≢◌, ◌⊎◌, inl, inr, refl, none, some, List, [], ◌∷◌, arith, length, ◌∙◌,
  ◌==◌, Bool-cases, subst,
}
use eltex_school.Phonebook.{Abonent}
use eltex_school.LinkedBook.{Pointer, Heap, write, Book}
use eltex_school.LinkedBook.Menu.{free_from, free_all}
use eltex_school.LinkedBook.Chain.{
  IsChain, IsBook, Apart, AllApart, IsChain-write, write_ne, write_self,
}

-- `x` is the address of one of the nodes.
abbrev pub Among : ℕ → List (ℕ × Abonent) → Type 0
Among x [] = x ≢ x
Among x ((a, e) ∷ xs) = (x ≡ a) ⊎ Among x xs

-- `t` is `h` without the nodes of the list: they are gone, and all else is as it was.
abbrev pub Without : (h t : Heap) → List (ℕ × Abonent) → Type 0
Without h t xs = (x : ℕ) → ((t x ≡ none) × Among x xs) ⊎ ((t x ≡ h x) × Apart x xs)

Without-node :
    (h t : Heap) (a : ℕ) (e : Abonent) (xs : List (ℕ × Abonent))
    → Without (write h a none) t xs
    → Without h t ((a, e) ∷ xs)
Without-node h t a e xs w x = elim (w x) [
  | inl (gone, among) ↦ inl (gone, inr among)
  | inr (same, apart) ↦ elim (Bool-cases (x == a)) [
    | inl q ↦
        let eq : a ≡ x = ground (arith, q) in
        inl (
          same ∙ subst (λ k. write h a none k ≡ none) eq (write_self h a none),
          inl (ground (arith, q)),
        )
    | inr q ↦ inr (
      same ∙ write_ne h a x none (λ r. ground (arith, q, r)),
      ((λ r. ground (arith, q, r)), apart),
    )
  ]
]

free_from-Without :
    (fuel : ℕ) (h : Heap) (prev first : Pointer) (xs : List (ℕ × Abonent))
    → IsChain h prev first xs
    → AllApart xs
    → length xs ≤ fuel
    → (t : Heap) × (free_from fuel h first ≡ some t) × Without h t xs
unfolding free_from
free_from-Without fuel h prev first [] c p l = rw c (h, refl, λ x. inr (refl, tt))
free_from-Without zero h prev first ((a, e) ∷ xs) c p l = elim l [ ]
free_from-Without (suc fuel) h prev first ((a, e) ∷ xs) (q, (next, here, rest)) p l =
    let (t, done, w) =
      free_from-Without fuel (write h a none) (some a) next xs
        (IsChain-write h a none (some a) next xs p.0 rest) p.1 (omega (arith, l)) in
    rw (q, here, done, free_from) (t, refl, λ x. Without-node h t a e xs w x)

-- In a book that is linked in order, and with fuel for each entry, `free_all` frees the nodes of the
-- book, each once, leaves every other address as it was, and leaves an empty book.
pub free_all_lem :
    (fuel : ℕ) (b : Book) (xs : List (ℕ × Abonent))
    → IsBook b xs
    → length xs ≤ fuel
    → (t : Heap) × (free_all fuel b
        ≡ some (record { heap = t; head = none; tail = none; abonent_count = 0 }))
      × Without b.heap t xs
unfolding free_all
free_all_lem fuel b xs v l =
    let (t, done, w) = free_from-Without fuel b.heap none b.head xs v.chain v.apart l in
    rw (done, free_all) (t, refl, w)
