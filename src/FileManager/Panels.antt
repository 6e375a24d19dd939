-- ===== src/FileManager/Panels.antt =====
-- The bounds of the panels and of their cursors.
use eltex_school.Base.{
  ℕ, zero, suc, ◌+◌, ◌-◌, ◌<◌, ◌≤◌, sym, subst, none, some, Option, List, [], ◌∷◌, ◌++◌, ◌==◌, ◌||◌,
  ltb, if◌then◌else◌, length, length-take, get_elem?, arith, Bool-cases, Option-cases, inl, inr,
}
use eltex_school.Text.{Text, codes, str_eq}
use eltex_school.FileManager.{
  max_path, max_entries, FileEntry, Listed, Files, Panel, Manager, is_dots, with_entry, taken_by,
  load_entries, load_from, load_directory, strrchr, up_to, parent_of_cwd, parent, enter, go,
  change_at, change_directory, move_up, move_down, in_active, press, run, start,
}

-- `getcwd` returns a path that fits the buffer that it is given.
abbrev CwdFits : Option Text → Type 0
CwdFits none = Unit {0}
CwdFits (some cwd) = length cwd < max_path

pub record IsPanel (p : Panel) : Type 0 where
  pub fits : length p.path < max_path
  pub room : length p.entries ≤ max_entries
  pub on_entry : p.selected ≤ length p.entries - 1

load_entries-room : (room : ℕ) (ds : List Listed) → length (load_entries room ds) ≤ room
unfolding load_entries
load_entries-room room [] = omega arith
load_entries-room room (d ∷ ds) = elim (Bool-cases (room == 0)) [
  | inl full ↦ rw full (omega arith)
  | inr left ↦ elim (Bool-cases (is_dots d.d_name)) [
    | inl dots ↦ rw (left, dots) (load_entries-room room ds)
    | inr dots ↦
        let more : 0 < room = ground (arith, left) in
        let rest = load_entries-room (room - taken_by d.stat) ds in
        rw (left, dots)
          (elim (Option-cases d.stat) [
            | inl q ↦
                rw (q, with_entry)
                  (omega (
                    arith,
                    subst (λ t. length (load_entries (room - taken_by t) ds) ≤ room - taken_by t) q
                        rest,
                  ))
            | inr (b, q) ↦
                rw (q, with_entry)
                  (omega (
                    arith,
                    more,
                    subst (λ t. length (load_entries (room - taken_by t) ds) ≤ room - taken_by t) q
                        rest,
                  ))
          ])
  ]
]

go-IsPanel : (fs : Files) (path : Text) → length path < max_path → IsPanel (go fs path)
unfolding go load_directory
go-IsPanel fs path h = elim (Option-cases (fs.opendir path)) [
  | inl q ↦ record {
    fits = h;
    room =
        subst (λ o. length (load_from o) ≤ max_entries) (sym q) (unfold load_from in omega arith);
    on_entry = omega arith;
  }
  | inr (ds, q) ↦ record {
    fits = h;
    room =
        subst (λ o. length (load_from o) ≤ max_entries) (sym q)
          (unfold load_from in omega (arith, load_entries-room (max_entries - 1) ds));
    on_entry = omega arith;
  }
]

up_to-fits : (path : Text) (i : ℕ) → length path < max_path → length (up_to path i) < max_path
up_to-fits path zero h = omega arith
up_to-fits path (suc i) h = omega (arith, length-take (suc i) path)

parent_of_cwd-fits :
    (path : Text) (o : Option Text)
    → CwdFits o
    → length path < max_path
    → length (parent_of_cwd path o) < max_path
parent_of_cwd-fits path none c h = h
parent_of_cwd-fits path (some cwd) c h = elim (Option-cases (strrchr cwd)) [
  | inl q ↦ rw (q, parent_of_cwd) (omega arith)
  | inr (i, q) ↦ rw (q, parent_of_cwd) (up_to-fits cwd i c)
]

parent-fits :
    (fs : Files) (path : Text)
    → CwdFits fs.getcwd
    → length path < max_path
    → length (parent fs path) < max_path
unfolding parent
parent-fits fs path c h = elim (Option-cases (strrchr path)) [
  | inr (i, q) ↦ rw (q, parent) (up_to-fits path i h)
  | inl q ↦ elim (Bool-cases (str_eq path (codes "."))) [
    | inl here ↦ rw (q, here, parent) (parent_of_cwd-fits path fs.getcwd c h)
    | inr here ↦ rw (q, here, parent) (omega arith)
  ]
]

enter-fits : (path name : Text) → length (enter path name) < max_path
unfolding enter
enter-fits path name =
    let new =
      if str_eq path (codes ".")
      then name
      else if str_eq path (codes "/")
      then b'/' ∷ name
      else path ++ b'/' ∷ name in
    omega (arith, length-take (max_path - 1) new)

change_at-IsPanel :
    (fs : Files) (p : Panel) (o : Option FileEntry)
    → CwdFits fs.getcwd
    → IsPanel p
    → IsPanel (change_at fs p o)
unfolding change_at
change_at-IsPanel fs p none c v = v
change_at-IsPanel fs p (some e) c v = elim (Bool-cases (str_eq e.name (codes ".."))) [
  | inl up ↦ rw up (go-IsPanel fs (parent fs p.path) (parent-fits fs p.path c v.fits))
  | inr up ↦ elim (Bool-cases e.is_dir) [
    | inl dir ↦ rw (up, dir) (go-IsPanel fs (enter p.path e.name) (enter-fits p.path e.name))
    | inr dir ↦ rw (up, dir) v
  ]
]

move_up-IsPanel : (p : Panel) → IsPanel p → IsPanel (move_up p)
unfolding move_up
move_up-IsPanel p v = elim (Bool-cases (ltb 0 p.selected)) [
  | inl above ↦
      rw above (record { fits = v.fits; room = v.room; on_entry = omega (arith, v.on_entry) })
  | inr top ↦ rw top v
]

move_down-IsPanel : (p : Panel) → IsPanel p → IsPanel (move_down p)
unfolding move_down
move_down-IsPanel p v = elim (Bool-cases (ltb (p.selected + 1) (length p.entries))) [
  | inl below ↦ rw below (record { fits = v.fits; room = v.room; on_entry = ground (arith, below) })
  | inr bottom ↦ rw bottom v
]

-- Both panels are within their arrays.
pub record IsManager (m : Manager) : Type 0 where
  pub left : IsPanel m.left
  pub right : IsPanel m.right

in_active-IsManager :
    (f : Panel → Panel) (m : Manager)
    → ((p : Panel) → IsPanel p → IsPanel (f p))
    → IsManager m
    → IsManager (in_active f m)
in_active-IsManager f m keep v = elim (Bool-cases m.right_active) [
  | inl r ↦ rw (r, in_active) (record { left = v.left; right = keep m.right v.right })
  | inr l ↦ rw (l, in_active) (record { left = keep m.left v.left; right = v.right })
]

abbrev pub ResultIsManager : Option Manager → Type 0
ResultIsManager none = Unit {0}
ResultIsManager (some m) = IsManager m

press-IsManager :
    (fs : Files) (ch : ℕ) (m : Manager)
    → CwdFits fs.getcwd
    → IsManager m
    → ResultIsManager (press fs ch m)
unfolding press change_directory
press-IsManager fs ch m c v = elim (Bool-cases (ch == 259)) [
  | inl up ↦ rw up (in_active-IsManager move_up m move_up-IsPanel v)
  | inr up ↦ elim (Bool-cases (ch == 258)) [
    | inl down ↦ rw (up, down) (in_active-IsManager move_down m move_down-IsPanel v)
    | inr down ↦ elim (Bool-cases (ch == b'\n' || ch == 343)) [
      | inl enters ↦
          rw (up, down, enters)
            (in_active-IsManager (change_directory fs) m
              (λ p w. change_at-IsPanel fs p (get_elem? p.entries p.selected) c w) v)
      | inr enters ↦ elim (Bool-cases (ch == b'\t')) [
        | inl tab ↦ rw (up, down, enters, tab) (record { left = v.left; right = v.right })
        | inr tab ↦ elim (Bool-cases (ch == b'q' || ch == b'Q')) [
          | inl quit ↦ rw (up, down, enters, tab, quit) tt
          | inr quit ↦ rw (up, down, enters, tab, quit) v
        ]
      ]
    ]
  ]
]

abbrev pub AllCwdFit : List (Files × ℕ) → Type 0
AllCwdFit [] = Unit {0}
AllCwdFit ((fs, ch) ∷ keys) = CwdFits fs.getcwd × AllCwdFit keys

run-IsManager :
    (keys : List (Files × ℕ)) (m : Manager)
    → AllCwdFit keys
    → IsManager m
    → ResultIsManager (run keys m)
unfolding run
run-IsManager [] m c v = v
run-IsManager ((fs, ch) ∷ keys) m c v = elim (Option-cases (press fs ch m)) [
  | inl q ↦ rw (q, run) tt
  | inr (m', q) ↦
      let v' = subst (λ r. ResultIsManager r) q (press-IsManager fs ch m c.0 v) in
      rw (q, run) (run-IsManager keys m' c.1 v')
]

start-IsManager : (fs : Files) → IsManager (start fs)
unfolding start
start-IsManager fs =
    let here = go-IsPanel fs (codes ".") (omega arith) in record { left = here; right = here }

-- From the start of the program, whatever keys are pressed, and whatever the file system holds then
-- and at each of them, provided that `getcwd` fits its buffer: while the program runs, both paths
-- fit their 1024 bytes with the NUL, no panel has more than 1000 entries, and each cursor is on an
-- entry, or at 0 if there is none.
pub started-IsManager :
    (fs : Files) (keys : List (Files × ℕ)) → AllCwdFit keys → ResultIsManager (run keys (start fs))
started-IsManager fs keys c = run-IsManager keys (start fs) c (start-IsManager fs)
