-- ===== src/FileManager.antt =====
-- lab9/task2.c: the file manager with two panels. What the file system holds is an argument: what a
-- directory lists, and what `getcwd` returns. The keys are ncurses' numbers.
pub mod Panels
pub mod Paths
pub mod Unreadable
mod Tests
use eltex_school.Base.{
  ℕ, zero, suc, ◌+◌, ◌-◌, Bool, true, false, ◌&&◌, ◌||◌, not, Option, none, some, List, [], ◌∷◌,
  ◌++◌, ltb, ◌==◌, if◌then◌else◌, length, get_elem?, take,
}
use eltex_school.Text.{Text, codes, str_eq}

abbrev pub max_entries : ℕ
max_entries = 1000

abbrev pub max_path : ℕ
max_path = 1024

pub record FileEntry : Type 0 where
  pub name : Text
  pub is_dir : Bool

-- An entry that `readdir` returns, and what `stat` says of it: nothing, or whether it is a directory.
pub record Listed : Type 0 where
  pub d_name : Text
  pub stat : Option Bool

-- `opendir` and `readdir` by path, and `getcwd`.
pub record Files : Type 0 where
  pub opendir : Text → Option (List Listed)
  pub getcwd : Option Text

pub record Panel : Type 0 where
  pub path : Text
  pub entries : List FileEntry
  pub selected : ℕ

pub record Manager : Type 0 where
  pub left : Panel
  pub right : Panel
  pub right_active : Bool

-- `strncpy` of at most 1023 bytes, and the NUL.
abbrev pub cut_path : Text → Text
cut_path s = take (max_path - 1) s

abbrev pub is_dots : Text → Bool
is_dots name = str_eq name (codes ".") || str_eq name (codes "..")

abbrev pub with_entry : Text → Option Bool → List FileEntry → List FileEntry
with_entry d_name none es = es
with_entry d_name (some is_dir) es = record { name = cut_path d_name; is_dir = is_dir } ∷ es

abbrev pub taken_by : Option Bool → ℕ
taken_by none = 0
taken_by (some is_dir) = 1

-- The loop of `load_directory` with room for `room` entries.
unfoldable pub load_entries : (room : ℕ) → List Listed → List FileEntry
load_entries room [] = []
load_entries room (d ∷ ds) =
    let dots = is_dots d.d_name in
    let rest = load_entries (if dots then room else room - taken_by d.stat) ds in
    if room == 0 then [] else if dots then rest else with_entry d.d_name d.stat rest

unfoldable pub load_from : Option (List Listed) → List FileEntry
unfolding load_entries
load_from none = []
load_from (some ds) =
    record { name = codes ".."; is_dir = true } ∷ load_entries (max_entries - 1) ds

unfoldable pub load_directory : Files → (path : Text) → List FileEntry
unfolding load_from
load_directory fs path = load_from (fs.opendir path)

-- `strrchr (s, '/')`, as an index.
unfoldable pub strrchr : Text → Option ℕ
strrchr [] = none
strrchr (c ∷ s) = elim (strrchr s) [
  | none ↦ (if c == b'/' then some 0 else none)
  | some i ↦ some (suc i)
]

-- The path up to the slash at an index, or the root.
abbrev pub up_to : Text → ℕ → Text
up_to path zero = codes "/"
up_to path (suc i) = take (suc i) path

abbrev pub parent_of_cwd : (path : Text) → Option Text → Text
parent_of_cwd path none = path
parent_of_cwd path (some cwd) = elim (strrchr cwd) [ none ↦ codes ".." | some i ↦ up_to cwd i ]

-- The path after `..` was chosen.
unfoldable pub parent : Files → (path : Text) → Text
unfolding strrchr
parent fs path = elim (strrchr path) [
  | some i ↦ up_to path i
  | none ↦ if str_eq path (codes ".") then parent_of_cwd path fs.getcwd else codes "."
]

-- The path after a directory was chosen.
unfoldable pub enter : (path name : Text) → Text
enter path name = cut_path (
    if str_eq path (codes ".")
    then name
    else if str_eq path (codes "/")
    then b'/' ∷ name
    else path ++ b'/' ∷ name)

unfoldable pub go : Files → (path : Text) → Panel
unfolding load_directory
go fs path = record { path = path; entries = load_directory fs path; selected = 0 }

unfoldable pub change_at : Files → Panel → Option FileEntry → Panel
unfolding go parent enter
change_at fs p none = p
change_at fs p (some e) =
    if str_eq e.name (codes "..")
    then go fs (parent fs p.path)
    else if e.is_dir
    then go fs (enter p.path e.name)
    else p

unfoldable pub change_directory : Files → Panel → Panel
unfolding change_at
change_directory fs p = change_at fs p (get_elem? p.entries p.selected)

unfoldable pub move_up : Panel → Panel
move_up p = if ltb 0 p.selected then record p { selected = p.selected - 1 } else p

unfoldable pub move_down : Panel → Panel
move_down p =
    if ltb (p.selected + 1) (length p.entries) then record p { selected = p.selected + 1 } else p

abbrev pub in_active : (Panel → Panel) → Manager → Manager
in_active f m =
    if m.right_active then record m { right = f m.right } else record m { left = f m.left }

-- A round of `main`: `none` where it ends.
unfoldable pub press : Files → (ch : ℕ) → Manager → Option Manager
unfolding move_up move_down change_directory
press fs ch m =
    if ch == 259
    then some (in_active move_up m)
    else if ch == 258
    then some (in_active move_down m)
    else if ch == b'\n' || ch == 343
    then some (in_active (change_directory fs) m)
    else if ch == b'\t'
    then some (record m { right_active = not m.right_active })
    else if ch == b'q' || ch == b'Q'
    then none
    else some m

unfoldable pub start : Files → Manager
unfolding go
start fs = record { left = go fs (codes "."); right = go fs (codes "."); right_active = false }

-- A key, with the file system as it is then.
unfoldable pub run : List (Files × ℕ) → Manager → Option Manager
unfolding press
run [] m = some m
run ((fs, ch) ∷ keys) m = elim (press fs ch m) [ none ↦ none | some m' ↦ run keys m' ]

-- A row of a panel: the name, and whether it is the selected one and a directory.
pub record Row : Type 0 where
  pub name : Text
  pub reversed : Bool
  pub bold : Bool

abbrev pub rows_from : (i selected : ℕ) → List FileEntry → List Row
rows_from i selected [] = []
rows_from i selected (e ∷ es) =
    record { name = e.name; reversed = i == selected; bold = e.is_dir }
    ∷ rows_from (i + 1) selected es

-- The rows that `draw_panel` writes into a panel of this height.
unfoldable pub draw_panel : (height : ℕ) → Panel → List Row
draw_panel height p = rows_from 0 p.selected (take (height - 3) p.entries)
