-- ===== src/Phonebook.antt =====
-- lab4/task.c (lab5/task.c is the same text): a phone book of 100 slots with a menu. Standard input
-- is the text that is left of it; the prompts are not kept, every other line printed is an `Output`.
pub mod Invariant
pub mod Add
pub mod Delete
pub mod Search
pub mod Menu
mod Tests
use eltex_school.Base.{
  ℕ, zero, suc, ◌+◌, ◌-◌, Bool, true, false, ◌&&◌, not, Option, none, some, List, [], ◌∷◌, ◌++◌,
  map, leb, ◌==◌, if◌then◌else◌, get_or, set, replicate,
}
use eltex_school.Base.Int.{ℤ, pos, negsuc}
use eltex_school.Text.{Text, str_eq, scan_word, scan_int}

abbrev pub max_abonents : ℕ
max_abonents = 100

pub record Abonent : Type 0 where
  pub name : Text
  pub second_name : Text
  pub tel : Text

-- What `memset` leaves.
abbrev pub blank : Abonent
blank = record { name = []; second_name = []; tel = [] }

-- `phonebook` and `abonent_count`.
pub record Book : Type 0 where
  pub phonebook : List Abonent
  pub abonent_count : ℕ

pub data Output : Type 0 where
  full no_room nothing_to_delete bad_index book_is_empty header bye bad_choice : Output
  added already_empty deleted total : ℕ → Output
  row : ℕ → Abonent → Output
  not_found : Text → Output

-- The first byte of a text is its NUL.
abbrev pub is_nil : Text → Bool
is_nil [] = true
is_nil (c ∷ s) = false

unfoldable pub is_empty : Abonent → Bool
is_empty e = is_nil e.name && is_nil e.second_name && is_nil e.tel

-- The globals before `main`: zeroed memory.
abbrev pub start : Book
start = record { phonebook = replicate max_abonents blank; abonent_count = 0 }

unfoldable pub init_phonebook : Book → Book
init_phonebook b = record b { phonebook = map (λ _. blank) b.phonebook }

-- `scanf ("%9s", field)`, which leaves the field as it was at the end of the input.
abbrev pub field_or : Text → Option Text → Text
field_or old none = old
field_or old (some w) = w

unfoldable pub read_field : Text → Text → Text × Text
read_field old s = let word = scan_word 9 s in (field_or old word.0, word.1)

unfoldable pub read_abonent : Abonent → Text → Abonent × Text
read_abonent e s =
    let name = read_field e.name s in
    let second = read_field e.second_name name.1 in
    let tel = read_field e.tel second.1 in
    (record { name = name.0; second_name = second.0; tel = tel.0 }, tel.1)

-- The loop of `add_abonent`: the first slot from `i` on that is empty.
unfoldable pub find_empty : ℕ → List Abonent → Option ℕ
find_empty i [] = none
find_empty i (e ∷ es) = if is_empty e then some i else find_empty (i + 1) es

abbrev pub Result : Type 0
Result = Book × Text × List Output

unfoldable pub add_at : Book → Text → Option ℕ → Result
unfolding read_abonent
add_at b s none = (b, s, no_room ∷ [])
add_at b s (some i) =
    let new = read_abonent (get_or b.phonebook i blank) s in
    (
      record { phonebook = set b.phonebook i new.0; abonent_count = b.abonent_count + 1 },
      new.1,
      added i ∷ [],
    )

unfoldable pub add_abonent : Book → Text → Result
unfolding add_at
add_abonent b s =
    if leb max_abonents b.abonent_count
    then (b, s, full ∷ [])
    else add_at b s (find_empty 0 b.phonebook)

-- The indeterminate values of the locals that `scanf` fills, for the case that it fills none.
pub record Junk : Type 0 where
  pub index : ℤ
  pub search_name : Text

abbrev pub int_or : ℤ → Option ℤ → ℤ
int_or old none = old
int_or old (some n) = n

unfoldable pub delete_at : Book → Text → ℤ → Result
delete_at b s (negsuc i) = (b, s, bad_index ∷ [])
delete_at b s (pos i) =
    if leb max_abonents i
    then (b, s, bad_index ∷ [])
    else if is_empty (get_or b.phonebook i blank)
    then (b, s, already_empty i ∷ [])
    else (
      record { phonebook = set b.phonebook i blank; abonent_count = b.abonent_count - 1 },
      s,
      deleted i ∷ [],
    )

unfoldable pub delete_abonent : Junk → Book → Text → Result
unfolding delete_at
delete_abonent j b s =
    if b.abonent_count == 0
    then (b, s, nothing_to_delete ∷ [])
    else (let index = scan_int s in delete_at b index.1 (int_or j.index index.0))

-- The loop of `search_by_name`, from slot `i` on.
unfoldable pub search_loop : Text → ℕ → List Abonent → List Output
search_loop w i [] = []
search_loop w i (e ∷ es) =
    let rest = search_loop w (i + 1) es in
    if not (is_empty e) && str_eq e.name w then row i e ∷ rest else rest

-- The message that closes a search in which `found` stayed 0.
abbrev pub or_not_found : Text → List Output → List Output
or_not_found w [] = not_found w ∷ []
or_not_found w (o ∷ os) = o ∷ os

unfoldable pub search_by_name : Junk → Book → Text → Result
unfolding search_loop
search_by_name j b s =
    let word = scan_word 9 s in
    let w = field_or j.search_name word.0 in
    (b, word.1, or_not_found w (search_loop w 0 b.phonebook))

unfoldable pub print_loop : ℕ → List Abonent → List Output
print_loop i [] = []
print_loop i (e ∷ es) =
    let rest = print_loop (i + 1) es in if is_empty e then rest else row i e ∷ rest

unfoldable pub print_all : Book → List Output
unfolding print_loop
print_all b =
    if b.abonent_count == 0
    then book_is_empty ∷ []
    else (header ∷ print_loop 0 b.phonebook) ++ (total b.abonent_count ∷ [])

abbrev pub is_choice : ℤ → ℕ → Bool
is_choice (pos n) k = n == k
is_choice (negsuc n) k = false

-- The `switch` of `main`.
unfoldable pub choose : Junk → ℤ → Book → Text → Result
choose j c b s =
    if is_choice c 1
    then add_abonent b s
    else if is_choice c 2
    then delete_abonent j b s
    else if is_choice c 3
    then search_by_name j b s
    else if is_choice c 4
    then (b, s, print_all b)
    else if is_choice c 5
    then (b, s, bye ∷ [])
    else (b, s, bad_choice ∷ [])

abbrev pub prepend : List Output → Option (Book × List Output) → Option (Book × List Output)
prepend os none = none
prepend os (some (b, rest)) = some (b, os ++ rest)

-- The loop of `main`, on fuel: `none` means that it has not ended. `c` is what `choice` holds.
unfoldable pub menu : ℕ → Junk → ℤ → Book → Text → Option (Book × List Output)
menu zero j c b s = none
menu (suc k) j c b s =
    let line = scan_int s in
    let c' = int_or c line.0 in
    let r = choose j c' b line.1 in
    let rest = prepend r.2 (menu k j c' r.0 r.1) in if is_choice c' 5 then some (r.0, r.2) else rest

unfoldable pub main : ℕ → Junk → ℤ → Text → Option (Book × List Output)
unfolding init_phonebook menu
main fuel j c s = menu fuel j c (init_phonebook start) s
