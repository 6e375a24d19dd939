-- ===== src/LinkedBook/Link.antt =====
-- Linking a new entry.
use eltex_school.Base.{
  ℕ, ◌+◌, ◌≡◌, ◌≢◌, refl, sym, ap, ◌∙◌, none, some, List, [], ◌∷◌, ◌++◌, arith, length-append,
}
use eltex_school.Phonebook.{Abonent}
use eltex_school.LinkedBook.{Pointer, Node, Heap, write, Book, link, link_after, set_next, set_prev}
use eltex_school.LinkedBook.Chain.{
  IsChain, IsBook, Apart, AllApart, last_of, IsChain-write, Apart-fresh, write_ne, write_self,
}
use eltex_school.LinkedBook.Segment.{
  AllOut, AllApart-join, IsSeg-join, IsSeg-write, IsSeg-next, Apart-last, last-node, last_of-append,
}

-- What the links between the last node and a new one make of the heap.
abbrev linked : Heap → (t a : ℕ) → (n m : Node) → Heap
linked h t a n m =
    write (write h t (some (record n { next = some a }))) a (some (record m { prev = some t }))

link_after-linked :
    (h : Heap) (t a : ℕ) (n m : Node)
    → t ≢ a
    → h t ≡ some n
    → h a ≡ some m
    → link_after t a h ≡ some (linked h t a n m)
unfolding link_after set_next set_prev
link_after-linked h t a n m ne last new =
    let still = write_ne h t a (some (record n { next = some a })) ne ∙ new in
    rw (last, still, link_after, set_next, set_prev) refl

linked-IsChain :
    (h : Heap) (a t : ℕ) (e : Abonent) (n : Node) (first : Pointer) (x : ℕ × Abonent)
    (xs : List (ℕ × Abonent))
    → IsChain h none first (x ∷ xs)
    → AllApart (x ∷ xs)
    → Apart a (x ∷ xs)
    → last_of none (x ∷ xs) ≡ some t
    → h t ≡ some n
    → IsChain
        (linked h t a n (record { entry = e; prev = none; next = none }))
        none
        first
        ((x ∷ xs) ++ (a, e) ∷ [])
linked-IsChain h a t e n first x xs c p f l last =
    let m : Node = record { entry = e; prev = some t; next = none } in
    let h1 = write h t (some (record n { next = some a })) in
    let before = IsSeg-next h t n none first x xs none (some a) c p l last in
    IsSeg-join (write h1 a (some m)) none first (x ∷ xs) ((a, e) ∷ []) (some a) none
      (IsSeg-write h1 a (some m) none first (x ∷ xs) (some a) f before)
      (
        refl,
        (
          none,
          write_self h1 a (some m)
              ∙ ap (λ p. some (record { entry = e; prev = p; next = none })) (sym l),
          refl,
        ),
      )

AllOut-single :
    (a : ℕ) (e : Abonent) (xs : List (ℕ × Abonent)) → Apart a xs → AllOut xs ((a, e) ∷ [])
AllOut-single a e [] p = tt
AllOut-single a e (x ∷ xs) p = (((λ q. p.0 (sym q)), tt), AllOut-single a e xs p.1)

link_steps :
    (a : ℕ) (e : Abonent) (b : Book) (first t : ℕ) (h' : Heap)
    → b.head ≡ some first
    → b.tail ≡ some t
    → link_after t a (write b.heap a (some (record { entry = e; prev = none; next = none })))
      ≡ some h'
    → link a e b
      ≡ some
          (record { heap = h'; head = b.head; tail = some a; abonent_count = b.abonent_count + 1 })
unfolding link
link_steps a e b first t h' p q r =
    rw (p, q, r, link)
      (ap
        (λ (x : Pointer).
          some (record { heap = h'; head = x; tail = some a; abonent_count = b.abonent_count + 1 }))
        p)

-- In a book that is linked in order, a node at an address that was free is put behind the others:
-- the book is linked in order again, with the new entry last.
pub link-IsBook :
    (a : ℕ) (e : Abonent) (b : Book) (xs : List (ℕ × Abonent))
    → IsBook b xs
    → b.heap a ≡ none
    → (b' : Book) × (link a e b ≡ some b') × IsBook b' (xs ++ (a, e) ∷ [])
link-IsBook a e b [] v free =
    let h = write b.heap a (some (record { entry = e; prev = none; next = none })) in
    (
      record { heap = h; head = some a; tail = some a; abonent_count = b.abonent_count + 1 },
      (unfold link in rw (v.chain, link) refl),
      record {
        chain = (refl, (none, write_self b.heap a _, refl));
        end = refl;
        apart = (tt, tt);
        counted = omega (arith, v.counted);
      },
    )
link-IsBook a e b ((c, d) ∷ xs) v free =
    let m : Node = record { entry = e; prev = none; next = none } in
    let h = write b.heap a (some m) in
    let f = Apart-fresh b.heap a none b.head ((c, d) ∷ xs) free v.chain in
    let chain = IsChain-write b.heap a (some m) none b.head ((c, d) ∷ xs) f v.chain in
    let (t, n, l, last) = last-node h none b.head (c, d) xs none chain in
    let apart : a ≢ t = Apart-last a t none (c, d) xs f l in
    let tail : b.tail ≡ some t = v.end ∙ l in
    let done =
      link_after-linked h t a n m (λ q. apart (sym q)) last (write_self b.heap a (some m)) in
    (
      record {
        heap = linked h t a n m;
        head = b.head;
        tail = some a;
        abonent_count = b.abonent_count + 1;
      },
      link_steps a e b c t (linked h t a n m) v.chain.0 tail done,
      record {
        chain = linked-IsChain h a t e n b.head (c, d) xs chain v.apart f l last;
        end = sym (last_of-append none ((c, d) ∷ xs) ((a, e) ∷ []));
        apart =
            AllApart-join ((c, d) ∷ xs) ((a, e) ∷ []) v.apart (tt, tt)
              (AllOut-single a e ((c, d) ∷ xs) f);
        counted = omega (arith, v.counted, length-append ((c, d) ∷ xs) ((a, e) ∷ []));
      },
    )
