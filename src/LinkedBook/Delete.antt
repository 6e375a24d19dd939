-- ===== src/LinkedBook/Delete.antt =====
-- Deleting a node, wherever it stands.
use eltex_school.Base.{
  ◌+◌, ℕ, zero, suc, ◌-◌, ◌<◌, ◌≡◌, refl, sym, ap, subst, ◌∙◌, false, none, some, List, [], ◌∷◌,
  ◌++◌, arith, length, length-append, leb,
}
use eltex_school.Text.{Text}
use eltex_school.Base.Int.{pos}
use eltex_school.Phonebook.{Abonent}
use eltex_school.LinkedBook.{
  Pointer, Node, Heap, write, Book, set_next, set_prev, node_at, unlink_prev, unlink_next, unlink,
  delete_at, deleted,
}
use eltex_school.LinkedBook.Chain.{IsSeg, IsBook, last_of, Apart, AllApart, write_ne}
use eltex_school.LinkedBook.Segment.{
  AllApart-split, AllApart-join, AllOut-flip, IsSeg-split, IsSeg-join, IsSeg-agree, IsSeg-write,
  IsSeg-next, IsSeg-prev, Apart-last, last-node, AllOut-sym, last_of-append,
}

pub node_at-middle :
    (h : Heap) (prev first : Pointer) (xs ys : List (ℕ × Abonent)) (a : ℕ) (e : Abonent)
    → IsSeg h prev first (xs ++ (a, e) ∷ ys) none
    → node_at (length xs) h first ≡ some a
unfolding node_at
node_at-middle h prev first [] ys a e (q, rest) = rw q refl
node_at-middle h prev first ((b, d) ∷ xs) ys a e (q, (next, here, rest)) =
    let later = node_at-middle h (some b) next xs ys a e rest in rw (q, here, later, node_at) refl

-- The first test: the nodes before now end in what followed the node.
record PrevDone (x : Node) (b b' : Book) (xs : List (ℕ × Abonent)) : Type 0 where
  before : IsSeg b'.heap none b'.head xs x.next
  same : (a : ℕ) → Apart a xs → b'.heap a ≡ b.heap a
  tail : b'.tail ≡ b.tail
  count : b'.abonent_count ≡ b.abonent_count

unlink_prev-some :
    (x : Node) (b : Book) (t : ℕ) (n : Node)
    → x.prev ≡ some t
    → b.heap t ≡ some n
    → unlink_prev x b
      ≡ some (record b { heap = write b.heap t (some (record n { next = x.next })) })
unfolding unlink_prev set_next
unlink_prev-some x b t n q last = rw (q, last, set_next, unlink_prev) refl

prev-PrevDone :
    (x : Node) (b : Book) (xs : List (ℕ × Abonent)) (stop : Pointer)
    → IsSeg b.heap none b.head xs stop
    → AllApart xs
    → x.prev ≡ last_of none xs
    → (b' : Book) × (unlink_prev x b ≡ some b') × PrevDone x b b' xs
unfolding unlink_prev set_next
prev-PrevDone x b [] stop s p q = (
  record b { head = x.next },
  rw q refl,
  record { before = refl; same = λ a o. refl; tail = refl; count = refl },
)
prev-PrevDone x b (y ∷ xs) stop s p q =
    let (t, n, l, last) = last-node b.heap none b.head y xs stop s in
    let h = write b.heap t (some (record n { next = x.next })) in
    let prev : x.prev ≡ some t = q ∙ l in
    (
      record b { heap = h },
      unlink_prev-some x b t n prev last,
      record {
        before = IsSeg-next b.heap t n none b.head y xs stop x.next s p l last;
        same = λ a o. write_ne b.heap t a _ (λ r. Apart-last a t none y xs o l (sym r));
        tail = refl;
        count = refl;
      },
    )

-- The second test: the nodes behind now follow what came before the node.
record NextDone (x : Node) (b b' : Book) (ys : List (ℕ × Abonent)) : Type 0 where
  after : IsSeg b'.heap x.prev x.next ys none
  same : (a : ℕ) → Apart a ys → b'.heap a ≡ b.heap a
  head : b'.head ≡ b.head
  tail : b'.tail ≡ last_of x.prev ys
  count : b'.abonent_count ≡ b.abonent_count

unlink_next-some :
    (x : Node) (b : Book) (t : ℕ) (n : Node)
    → x.next ≡ some t
    → b.heap t ≡ some n
    → unlink_next x b
      ≡ some (record b { heap = write b.heap t (some (record n { prev = x.prev })) })
unfolding unlink_next set_prev
unlink_next-some x b t n q last = rw (q, last, set_prev, unlink_next) refl

next-NextDone :
    (x : Node) (b : Book) (a : ℕ) (ys : List (ℕ × Abonent))
    → IsSeg b.heap (some a) x.next ys none
    → AllApart ys
    → b.tail ≡ last_of (some a) ys
    → (b' : Book) × (unlink_next x b ≡ some b') × NextDone x b b' ys
unfolding unlink_next
next-NextDone x b a [] s p l = (
  record b { tail = x.prev },
  rw s refl,
  record { after = s; same = λ c o. refl; head = refl; tail = refl; count = refl },
)
next-NextDone x b a ((c, e) ∷ ys) (q, (next, here, rest)) p l =
    let n : Node = record { entry = e; prev = some a; next = next } in
    let g = write b.heap c (some (record n { prev = x.prev })) in
    (
      record b { heap = g },
      unlink_next-some x b c n q here,
      record {
        after =
            subst (λ f. IsSeg g x.prev f ((c, e) ∷ ys) none) (sym q)
              (IsSeg-prev b.heap c n (some a) x.prev e ys none (refl, (next, here, rest)) p.0 here);
        same = λ d o. write_ne b.heap c d _ (λ r. o.0 (sym r));
        head = refl;
        tail = l;
        count = refl;
      },
    )

unlink-steps :
    (a : ℕ) (x : Node) (b b1 b2 : Book)
    → b.heap a ≡ some x
    → unlink_prev x b ≡ some b1
    → unlink_next x b1 ≡ some b2
    → unlink a b
      ≡ some (record b2 { heap = write b2.heap a none; abonent_count = b2.abonent_count - 1 })
unfolding unlink
unlink-steps a x b b1 b2 p q r = rw (p, q, r, unlink) refl

-- In a book that is linked in order, taking out a node leaves the others linked in order.
pub unlink-IsBook :
    (b : Book) (xs ys : List (ℕ × Abonent)) (a : ℕ) (e : Abonent)
    → IsBook b (xs ++ (a, e) ∷ ys)
    → (b' : Book) × (unlink a b ≡ some b') × IsBook b' (xs ++ ys)
unlink-IsBook b xs ys a e v =
    let (mid, left, (q, (next, here, right))) =
      IsSeg-split b.heap none b.head xs ((a, e) ∷ ys) none v.chain in
    let (apart, (a_ys, apart_ys), out) = AllApart-split xs ((a, e) ∷ ys) v.apart in
    let (a_xs, out_ys) = AllOut-flip xs a e ys out in
    let x : Node = record { entry = e; prev = last_of none xs; next = next } in
    let (b1, done1, d1) = prev-PrevDone x b xs mid left apart refl in
    let right1 =
      IsSeg-agree b.heap b1.heap (some a) next ys xs none d1.same (AllOut-sym xs ys out_ys) right in
    let (b2, done2, d2) =
      next-NextDone x b1 a ys right1 apart_ys
        (d1.tail ∙ v.end ∙ last_of-append none xs ((a, e) ∷ ys)) in
    let left2 = IsSeg-agree b1.heap b2.heap none b1.head xs ys next d2.same out_ys d1.before in
    let left3 = IsSeg-write b2.heap a none none b1.head xs next a_xs left2 in
    let right3 = IsSeg-write b2.heap a none (last_of none xs) next ys none a_ys d2.after in
    (
      record b2 { heap = write b2.heap a none; abonent_count = b2.abonent_count - 1 },
      unlink-steps a x b b1 b2 here done1 done2,
      record {
        chain =
            subst (λ f. IsSeg (write b2.heap a none) none f (xs ++ ys) none) (sym d2.head)
              (IsSeg-join (write b2.heap a none) none b1.head xs ys next none left3 right3);
        end = d2.tail ∙ sym (last_of-append none xs ys);
        apart = AllApart-join xs ys apart apart_ys out_ys;
        counted = omega (
          arith,
          v.counted,
          d1.count,
          d2.count,
          length-append xs ((a, e) ∷ ys),
          length-append xs ys,
        );
      },
    )

-- The list without its `n`-th element.
abbrev pub without {ℓ} : {A : Type ℓ} → ℕ → List A → List A
without n [] = []
without zero (x ∷ xs) = xs
without (suc n) (x ∷ xs) = x ∷ without n xs

-- The list around its `n`-th element.
cut :
    (n : ℕ) (xs : List (ℕ × Abonent))
    → n < length xs
    → (ys zs : List (ℕ × Abonent)) × (a : ℕ) × (e : Abonent) × (xs ≡ ys ++ (a, e) ∷ zs)
      × (length ys ≡ n)
      × (ys ++ zs ≡ without n xs)
cut n [] h = elim h [ ]
cut zero ((a, e) ∷ xs) h = ([], xs, a, e, refl, refl, refl)
cut (suc n) (x ∷ xs) h =
    let (ys, zs, a, e, whole, len, rest) = cut n xs (omega (arith, h)) in
    (x ∷ ys, zs, a, e, ap (λ l. x ∷ l) whole, ap suc len, ap (λ l. x ∷ l) rest)

pub length-without {ℓ} :
    {A : Type ℓ} (n : ℕ) (xs : List A) → n < length xs → length (without n xs) + 1 ≡ length xs
length-without n [] h = elim h [ ]
length-without zero (x ∷ xs) h = omega arith
length-without (suc n) (x ∷ xs) h = omega (arith, length-without n xs (omega arith))

delete_at-steps :
    (b b' : Book) (s : Text) (n a : ℕ)
    → n < b.abonent_count
    → node_at n b.heap b.head ≡ some a
    → unlink a b ≡ some b'
    → delete_at b s (pos n) ≡ some (b', s, deleted b'.abonent_count ∷ [])
unfolding delete_at
delete_at-steps b b' s n a h p q =
    let within : leb b.abonent_count n ≡ false = ground (arith, h) in
    rw (within, p, q, delete_at) refl

-- In a book that is linked in order, deleting by the number of an entry takes out this entry: the
-- others are linked in their order, and no memory is used that is not allocated.
pub delete_at-without :
    (b : Book) (xs : List (ℕ × Abonent)) (s : Text) (n : ℕ)
    → IsBook b xs
    → n < length xs
    → (b' : Book) × (delete_at b s (pos n) ≡ some (b', s, deleted b'.abonent_count ∷ []))
      × IsBook b' (without n xs)
delete_at-without b xs s n v h =
    let (ys, zs, a, e, whole, len, rest) = cut n xs h in
    let w = subst (λ l. IsBook b l) whole v in
    let (b', done, w') = unlink-IsBook b ys zs a e w in
    let found = node_at-middle b.heap none b.head ys zs a e w.chain in
    (
      b',
      delete_at-steps b b' s n a (omega (arith, h, v.counted))
          (subst (λ k. node_at k b.heap b.head ≡ some a) len found) done,
      subst (λ l. IsBook b' l) rest w',
    )
