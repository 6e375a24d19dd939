-- ===== src/LinkedBook.antt =====
-- lab6/task.c: the phone book as a doubly linked list on a heap. What the user types is one text;
-- what `malloc` returns, and what stands in the memory that it returns, are arguments.
pub mod Menu
pub mod Chain
pub mod Segment
pub mod Delete
pub mod Print
pub mod Free
pub mod Link
pub mod Spec
mod Tests
use eltex_school.Base.{
  ℕ, zero, suc, ◌+◌, ◌-◌, Bool, true, false, ◌||◌, Option, none, some, List, [], ◌∷◌, ◌++◌, leb,
  ◌==◌, if◌then◌else◌,
}
use eltex_school.Base.Int.{ℤ, pos, negsuc}
use eltex_school.Text.{Text, str_eq, scan_int, scan_word}
use eltex_school.Phonebook.{Abonent, Junk, read_abonent, int_or, field_or, is_choice}

-- An address, or `none` for NULL.
abbrev pub Pointer : Type 0
Pointer = Option ℕ

pub record Node : Type 0 where
  pub entry : Abonent
  pub prev : Pointer
  pub next : Pointer

-- The nodes that are allocated.
abbrev pub Heap : Type 0
Heap = ℕ → Option Node

abbrev pub write : Heap → ℕ → Option Node → Heap
write h a n x = if x == a then n else h x

pub record Book : Type 0 where
  pub heap : Heap
  pub head : Pointer
  pub tail : Pointer
  pub abonent_count : ℕ

pub data Output : Type 0 where
  no_memory nothing_to_delete bad_number is_nil header unknown_choice freed bye : Output
  added deleted total : ℕ → Output
  row : ℕ → Abonent → Output
  not_found : Text → Output

-- The state, the input left, and what is printed; `none` is an access to memory that is not
-- allocated, or a loop that outlasts its fuel.
abbrev pub Result : Type 0
Result = Option (Book × Text × List Output)

-- `node->next = n` and `node->prev = p`.
unfoldable pub set_next : Heap → ℕ → Pointer → Option Heap
set_next h a n = elim (h a) [
  | none ↦ none
  | some x ↦ some (write h a (some (record x { next = n })))
]

unfoldable pub set_prev : Heap → ℕ → Pointer → Option Heap
set_prev h a p = elim (h a) [
  | none ↦ none
  | some x ↦ some (write h a (some (record x { prev = p })))
]

-- `add_abonent` behind a node that is the last one.
unfoldable pub link_after : ℕ → ℕ → Heap → Option Heap
unfolding set_next set_prev
link_after t a h = elim (set_next h t (some a)) [ none ↦ none | some h' ↦ set_prev h' a (some t) ]

-- `add_abonent` from the filling of the links on: the node at `a` is put at the end.
unfoldable pub link : ℕ → Abonent → Book → Option Book
unfolding link_after
link a e b =
    let h = write b.heap a (some (record { entry = e; prev = none; next = none })) in
    elim b.head [
      | none ↦
          some
            (record { heap = h; head = some a; tail = some a; abonent_count = b.abonent_count + 1 })
      | some first ↦ elim b.tail [
        | none ↦ none
        | some t ↦ elim (link_after t a h) [
          | none ↦ none
          | some h' ↦ some (record {
            heap = h';
            head = b.head;
            tail = some a;
            abonent_count = b.abonent_count + 1;
          })
        ]
      ]
    ]

unfoldable pub add_abonent : (malloc : Pointer) → (junk : Abonent) → Book → Text → Result
unfolding link
add_abonent none junk b s = some (b, s, no_memory ∷ [])
add_abonent (some a) junk b s =
    let e = read_abonent junk s in
    elim (link a e.0 b) [ none ↦ none | some b' ↦ some (b', e.1, added b'.abonent_count ∷ []) ]

-- The loop that `delete_abonent` and `print_all` use: the rows from a node on.
unfoldable pub rows : ℕ → Heap → ℕ → Pointer → Option (List Output)
rows fuel h index none = some []
rows zero h index (some a) = none
rows (suc fuel) h index (some a) = elim (h a) [
  | none ↦ none
  | some x ↦ elim (rows fuel h (index + 1) x.next) [
    | none ↦ none
    | some os ↦ some (row index x.entry ∷ os)
  ]
]

-- `current = current->next`, `del_index` times from `head`.
unfoldable pub node_at : ℕ → Heap → Pointer → Option ℕ
node_at n h none = none
node_at zero h (some a) = some a
node_at (suc n) h (some a) = elim (h a) [ none ↦ none | some x ↦ node_at n h x.next ]

-- The two tests on the neighbours of the node that is deleted, and `free`.
unfoldable pub unlink_prev : Node → Book → Option Book
unfolding set_next
unlink_prev x b = elim x.prev [
  | none ↦ some (record b { head = x.next })
  | some p ↦ elim (set_next b.heap p x.next) [ none ↦ none | some h ↦ some (record b { heap = h }) ]
]

unfoldable pub unlink_next : Node → Book → Option Book
unfolding set_prev
unlink_next x b = elim x.next [
  | none ↦ some (record b { tail = x.prev })
  | some n ↦ elim (set_prev b.heap n x.prev) [ none ↦ none | some h ↦ some (record b { heap = h }) ]
]

unfoldable pub unlink : ℕ → Book → Option Book
unfolding unlink_prev unlink_next
unlink a b = elim (b.heap a) [
  | none ↦ none
  | some x ↦ elim (unlink_prev x b) [
    | none ↦ none
    | some b' ↦ elim (unlink_next x b') [
      | none ↦ none
      | some b'' ↦
          some (record b'' { heap = write b''.heap a none; abonent_count = b''.abonent_count - 1 })
    ]
  ]
]

unfoldable pub delete_at : Book → Text → ℤ → Result
unfolding node_at unlink
delete_at b s (negsuc n) = some (b, s, bad_number ∷ [])
delete_at b s (pos n) =
    if leb b.abonent_count n then some (b, s, bad_number ∷ []) else elim (node_at n b.heap b.head) [
      | none ↦ none
      | some a ↦ elim (unlink a b) [
        | none ↦ none
        | some b' ↦ some (b', s, deleted b'.abonent_count ∷ [])
      ]
    ]

abbrev pub printing : List Output → Result → Result
printing os none = none
printing os (some (b, s, more)) = some (b, s, os ++ more)

unfoldable pub delete_from : (fuel : ℕ) → Junk → Book → Text → (head : Pointer) → Result
unfolding rows delete_at
delete_from fuel j b s none = some (b, s, nothing_to_delete ∷ [])
delete_from fuel j b s (some first) = elim (rows fuel b.heap 0 (some first)) [
  | none ↦ none
  | some os ↦
      let line = scan_int s in printing (header ∷ os) (delete_at b line.1 (int_or j.index line.0))
]

unfoldable pub delete_abonent : (fuel : ℕ) → Junk → Book → Text → Result
unfolding delete_from
delete_abonent fuel j b s = delete_from fuel j b s b.head
