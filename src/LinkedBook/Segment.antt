-- ===== src/LinkedBook/Segment.antt =====
-- Parts of a list of nodes: cutting, joining, and changing a link at an end.
use eltex_school.Base.{
  ℕ, ◌≡◌, ◌≢◌, refl, sym, ap, subst, ◌∙◌, Option, some, List, [], ◌∷◌, ◌++◌, arith,
}
use eltex_school.Phonebook.{Abonent}
use eltex_school.LinkedBook.{Pointer, Node, Heap, write}
use eltex_school.LinkedBook.Chain.{IsSeg, last_of, Apart, AllApart, write_ne, write_self}

-- All addresses of the first list are apart from the second.
abbrev pub AllOut : (xs ys : List (ℕ × Abonent)) → Type 0
AllOut [] ys = Unit {0}
AllOut ((a, e) ∷ xs) ys = Apart a ys × AllOut xs ys

pub Apart-split :
    (a : ℕ) (xs ys : List (ℕ × Abonent)) → Apart a (xs ++ ys) → Apart a xs × Apart a ys
Apart-split a [] ys p = (tt, p)
Apart-split a (x ∷ xs) ys p = let (here, there) = Apart-split a xs ys p.1 in ((p.0, here), there)

pub Apart-join : (a : ℕ) (xs ys : List (ℕ × Abonent)) → Apart a xs → Apart a ys → Apart a (xs ++ ys)
Apart-join a [] ys p q = q
Apart-join a (x ∷ xs) ys p q = (p.0, Apart-join a xs ys p.1 q)

pub AllApart-split :
    (xs ys : List (ℕ × Abonent)) → AllApart (xs ++ ys) → AllApart xs × AllApart ys × AllOut xs ys
AllApart-split [] ys p = (tt, p, tt)
AllApart-split ((a, e) ∷ xs) ys p =
    let (left, right, out) = AllApart-split xs ys p.1 in
    let (near, far) = Apart-split a xs ys p.0 in ((near, left), right, (far, out))

pub AllApart-join :
    (xs ys : List (ℕ × Abonent)) → AllApart xs → AllApart ys → AllOut xs ys → AllApart (xs ++ ys)
AllApart-join [] ys p q o = q
AllApart-join ((a, e) ∷ xs) ys p q o = (Apart-join a xs ys p.0 o.0, AllApart-join xs ys p.1 q o.1)

-- The first node of the second list, seen from the first list.
pub AllOut-flip :
    (xs : List (ℕ × Abonent)) (a : ℕ) (e : Abonent) (ys : List (ℕ × Abonent))
    → AllOut xs ((a, e) ∷ ys)
    → Apart a xs × AllOut xs ys
AllOut-flip [] a e ys o = (tt, tt)
AllOut-flip ((b, d) ∷ xs) a e ys o =
    let (near, rest) = AllOut-flip xs a e ys o.1 in (((λ q. o.0.0 (sym q)), near), (o.0.1, rest))

pub AllOut-last :
    (prev : Pointer) (x : ℕ × Abonent) (xs ys : List (ℕ × Abonent)) (t : ℕ)
    → AllOut (x ∷ xs) ys
    → last_of prev (x ∷ xs) ≡ some t
    → Apart t ys
AllOut-last prev x [] ys t o l = subst (λ k. Apart k ys) (ground (arith, l)) o.0
AllOut-last prev x (y ∷ xs) ys t o l = AllOut-last (some x.0) y xs ys t o.1 l

pub IsSeg-split :
    (h : Heap) (prev first : Pointer) (xs ys : List (ℕ × Abonent)) (stop : Pointer)
    → IsSeg h prev first (xs ++ ys) stop
    → (mid : Pointer) × IsSeg h prev first xs mid × IsSeg h (last_of prev xs) mid ys stop
IsSeg-split h prev first [] ys stop s = (first, refl, s)
IsSeg-split h prev first ((a, e) ∷ xs) ys stop (q, (next, here, rest)) =
    let (mid, left, right) = IsSeg-split h (some a) next xs ys stop rest in
    (mid, (q, (next, here, left)), right)

pub IsSeg-join :
    (h : Heap) (prev first : Pointer) (xs ys : List (ℕ × Abonent)) (mid stop : Pointer)
    → IsSeg h prev first xs mid
    → IsSeg h (last_of prev xs) mid ys stop
    → IsSeg h prev first (xs ++ ys) stop
IsSeg-join h prev first [] ys mid stop s t = subst (λ p. IsSeg h prev p ys stop) (sym s) t
IsSeg-join h prev first ((a, e) ∷ xs) ys mid stop (q, (next, here, rest)) t =
    (q, (next, here, IsSeg-join h (some a) next xs ys mid stop rest t))

-- Heaps that agree at the nodes have the same segment.
pub IsSeg-agree :
    (h g : Heap) (prev first : Pointer) (xs ys : List (ℕ × Abonent)) (stop : Pointer)
    → ((x : ℕ) → Apart x ys → g x ≡ h x)
    → AllOut xs ys
    → IsSeg h prev first xs stop
    → IsSeg g prev first xs stop
IsSeg-agree h g prev first [] ys stop same o s = s
IsSeg-agree h g prev first ((a, e) ∷ xs) ys stop same o (q, (next, here, rest)) =
    (q, (next, same a o.0 ∙ here, IsSeg-agree h g (some a) next xs ys stop same o.1 rest))

pub IsSeg-write :
    (h : Heap) (a : ℕ) (n : Option Node) (prev first : Pointer) (xs : List (ℕ × Abonent))
    (stop : Pointer)
    → Apart a xs
    → IsSeg h prev first xs stop
    → IsSeg (write h a n) prev first xs stop
IsSeg-write h a n prev first [] stop p s = s
IsSeg-write h a n prev first ((b, e) ∷ xs) stop p (q, (next, here, rest)) =
    (q, (next, write_ne h a b n p.0 ∙ here, IsSeg-write h a n (some b) next xs stop p.1 rest))

pub last-node :
    (h : Heap) (prev first : Pointer) (x : ℕ × Abonent) (xs : List (ℕ × Abonent)) (stop : Pointer)
    → IsSeg h prev first (x ∷ xs) stop
    → (t : ℕ) × (n : Node) × (last_of prev (x ∷ xs) ≡ some t) × (h t ≡ some n)
last-node h prev first (b, d) [] stop (q, (next, here, rest)) =
    (b, record { entry = d; prev = prev; next = next }, refl, here)
last-node h prev first (b, d) (y ∷ ys) stop (q, (next, here, rest)) =
    last-node h (some b) next y ys stop rest

pub Apart-last :
    (b t : ℕ) (prev : Pointer) (x : ℕ × Abonent) (xs : List (ℕ × Abonent))
    → Apart b (x ∷ xs)
    → last_of prev (x ∷ xs) ≡ some t
    → b ≢ t
Apart-last b t prev x [] p l = λ q. p.0 (cc (q, l))
Apart-last b t prev x (y ∷ ys) p l = Apart-last b t (some x.0) y ys p.1 l

-- The link behind the last node is changed.
pub IsSeg-next :
    (h : Heap) (t : ℕ) (n : Node) (prev first : Pointer) (x : ℕ × Abonent) (xs : List (ℕ × Abonent))
    (stop new : Pointer)
    → IsSeg h prev first (x ∷ xs) stop
    → AllApart (x ∷ xs)
    → last_of prev (x ∷ xs) ≡ some t
    → h t ≡ some n
    → IsSeg (write h t (some (record n { next = new }))) prev first (x ∷ xs) new
IsSeg-next h t n prev first (b, d) [] stop new (q, (next, here, rest)) p l last =
    let same : t ≡ b = ground (arith, l) in
    let node : n ≡ record { entry = d; prev = prev; next = next } = cc (same, last, here) in
    (
      q,
      (
        new,
        subst (λ k. write h t (some (record n { next = new })) k ≡ some (record n { next = new }))
              same (write_self h t _)
            ∙ ap (λ (z : Node). some (record z { next = new })) node,
        refl,
      ),
    )
IsSeg-next h t n prev first (b, d) (y ∷ ys) stop new (q, (next, here, rest)) p l last =
    let apart = Apart-last b t (some b) y ys p.0 l in
    (
      q,
      (
        next,
        write_ne h t b _ (λ r. apart (sym r)) ∙ here,
        IsSeg-next h t n (some b) next y ys stop new rest p.1 l last,
      ),
    )

-- The link before the first node is changed.
pub IsSeg-prev :
    (h : Heap) (q : ℕ) (n : Node) (prev new : Pointer) (e : Abonent) (xs : List (ℕ × Abonent))
    (stop : Pointer)
    → IsSeg h prev (some q) ((q, e) ∷ xs) stop
    → Apart q xs
    → h q ≡ some n
    → IsSeg (write h q (some (record n { prev = new }))) new (some q) ((q, e) ∷ xs) stop
IsSeg-prev h q n prev new e xs stop (r, (next, here, rest)) p last =
    let node : n ≡ record { entry = e; prev = prev; next = next } = cc (last, here) in
    (
      refl,
      (
        next,
        write_self h q _ ∙ ap (λ (z : Node). some (record z { prev = new })) node,
        IsSeg-write h q _ (some q) next xs stop p rest,
      ),
    )

pub AllOut-sym : (xs ys : List (ℕ × Abonent)) → AllOut xs ys → AllOut ys xs
AllOut-sym xs [] o = tt
AllOut-sym xs ((a, e) ∷ ys) o =
    let (near, rest) = AllOut-flip xs a e ys o in (near, AllOut-sym xs ys rest)

pub last_of-append :
    (prev : Pointer) (xs ys : List (ℕ × Abonent))
    → last_of prev (xs ++ ys) ≡ last_of (last_of prev xs) ys
last_of-append prev [] ys = refl
last_of-append prev ((a, e) ∷ xs) ys = last_of-append (some a) xs ys
