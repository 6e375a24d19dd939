-- ===== src/LinkedBook/Chain.antt =====
-- The nodes of a book as a list: each is linked to the next and the previous one.
use eltex_school.Base.{
  ℕ, ◌≡◌, ◌≢◌, refl, ap, ◌∙◌, Option, none, some, List, [], ◌∷◌, arith, length, ◌==◌, Bool-cases,
  inl, inr,
}
use eltex_school.Phonebook.{Abonent}
use eltex_school.LinkedBook.{Pointer, Node, Heap, write, Book}

-- From `first` on, behind the node `prev`, up to the pointer `stop`.
abbrev pub IsSeg : Heap → (prev first : Pointer) → List (ℕ × Abonent) → (stop : Pointer) → Type 0
IsSeg h prev first [] stop = first ≡ stop
IsSeg h prev first ((a, e) ∷ xs) stop =
    (first ≡ some a)
    × ((next : Pointer) × (h a ≡ some (record { entry = e; prev = prev; next = next }))
        × IsSeg h (some a) next xs stop)

abbrev pub IsChain : Heap → (prev first : Pointer) → List (ℕ × Abonent) → Type 0
IsChain h prev first xs = IsSeg h prev first xs none

-- The address of the last node.
abbrev pub last_of : Pointer → List (ℕ × Abonent) → Pointer
last_of prev [] = prev
last_of prev ((a, e) ∷ xs) = last_of (some a) xs

-- An address that is none of theirs.
abbrev pub Apart : ℕ → List (ℕ × Abonent) → Type 0
Apart a [] = Unit {0}
Apart a ((b, e) ∷ xs) = (a ≢ b) × Apart a xs

abbrev pub AllApart : List (ℕ × Abonent) → Type 0
AllApart [] = Unit {0}
AllApart ((a, e) ∷ xs) = Apart a xs × AllApart xs

-- The book holds these entries, at these addresses, in this order.
pub record IsBook (b : Book) (xs : List (ℕ × Abonent)) : Type 0 where
  pub chain : IsChain b.heap none b.head xs
  pub end : b.tail ≡ last_of none xs
  pub apart : AllApart xs
  pub counted : b.abonent_count ≡ length xs

pub write_ne : (h : Heap) (a x : ℕ) (n : Option Node) → a ≢ x → write h a n x ≡ h x
write_ne h a x n ne = elim (Bool-cases (x == a)) [
  | inl e ↦ absurd (ground (arith, e, ne))
  | inr e ↦ rw e refl
]

pub write_self : (h : Heap) (a : ℕ) (n : Option Node) → write h a n a ≡ n
write_self h a n = elim (Bool-cases (a == a)) [
  | inl e ↦ rw e refl
  | inr e ↦ absurd (ground (arith, e))
]

-- A write elsewhere leaves a chain as it is.
pub IsChain-write :
    (h : Heap) (a : ℕ) (n : Option Node) (prev first : Pointer) (xs : List (ℕ × Abonent))
    → Apart a xs
    → IsChain h prev first xs
    → IsChain (write h a n) prev first xs
IsChain-write h a n prev first [] p c = c
IsChain-write h a n prev first ((b, e) ∷ xs) p (q, (next, here, rest)) =
    (q, (next, write_ne h a b n p.0 ∙ here, IsChain-write h a n (some b) next xs p.1 rest))

-- A new address is none of those of a chain.
pub Apart-fresh :
    (h : Heap) (a : ℕ) (prev first : Pointer) (xs : List (ℕ × Abonent))
    → h a ≡ none
    → IsChain h prev first xs
    → Apart a xs
Apart-fresh h a prev first [] f c = tt
Apart-fresh h a prev first ((b, e) ∷ xs) f (q, (next, here, rest)) =
    (λ same. absurd (cc (f, here, ap h same)), Apart-fresh h a (some b) next xs f rest)
