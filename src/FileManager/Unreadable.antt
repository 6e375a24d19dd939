-- ===== src/FileManager/Unreadable.antt =====
-- A directory that cannot be read.
use eltex_school.Base.{
  ℕ, ◌≡◌, refl, ap, ◌∙◌, sym, subst, none, some, Option, List, [], ◌∷◌, ◌==◌, ◌||◌, Bool-cases,
  Option-cases, inl, inr,
}
use eltex_school.Text.{Text}
use eltex_school.FileManager.{
  Files, Panel, Manager, load_from, load_directory, go, change_at, change_directory, move_up,
  move_down, in_active, press, run,
}

abbrev blank : Text → Panel
blank path = record { path = path; entries = []; selected = 0 }

go-blank : (fs : Files) (path : Text) → fs.opendir path ≡ none → go fs path ≡ blank path
unfolding go load_directory load_from
go-blank fs path e = rw (e, load_from) refl

-- A function on panels that leaves the blank one as it is leaves it in the manager.
in_active-left :
    (f : Panel → Panel) (m : Manager) (path : Text)
    → f (blank path) ≡ blank path
    → m.left ≡ blank path
    → (in_active f m).left ≡ blank path
in_active-left f m path keep e = elim (Bool-cases m.right_active) [
  | inl r ↦ rw (r, in_active) e
  | inr l ↦ rw (l, in_active) (ap f e ∙ keep)
]

move_up-blank : (path : Text) → move_up (blank path) ≡ blank path
unfolding move_up
move_up-blank path = refl

move_down-blank : (path : Text) → move_down (blank path) ≡ blank path
unfolding move_down
move_down-blank path = refl

change_directory-blank : (fs : Files) (path : Text) → change_directory fs (blank path) ≡ blank path
unfolding change_directory change_at
change_directory-blank fs path = refl

-- The left panel is blank, if the program runs on.
abbrev LeftBlank : Text → Option Manager → Type 0
LeftBlank path none = Unit {0}
LeftBlank path (some m) = m.left ≡ blank path

press-LeftBlank :
    (fs : Files) (ch : ℕ) (m : Manager) (path : Text)
    → m.left ≡ blank path
    → LeftBlank path (press fs ch m)
unfolding press
press-LeftBlank fs ch m path e = elim (Bool-cases (ch == 259)) [
  | inl up ↦ rw up (in_active-left move_up m path (move_up-blank path) e)
  | inr up ↦ elim (Bool-cases (ch == 258)) [
    | inl down ↦ rw (up, down) (in_active-left move_down m path (move_down-blank path) e)
    | inr down ↦ elim (Bool-cases (ch == b'\n' || ch == 343)) [
      | inl enters ↦
          rw (up, down, enters)
            (in_active-left (change_directory fs) m path (change_directory-blank fs path) e)
      | inr enters ↦ elim (Bool-cases (ch == b'\t')) [
        | inl tab ↦ rw (up, down, enters, tab) e
        | inr tab ↦ elim (Bool-cases (ch == b'q' || ch == b'Q')) [
          | inl quit ↦ rw (up, down, enters, tab, quit) tt
          | inr quit ↦ rw (up, down, enters, tab, quit) e
        ]
      ]
    ]
  ]
]

run-LeftBlank :
    (keys : List (Files × ℕ)) (m : Manager) (path : Text)
    → m.left ≡ blank path
    → LeftBlank path (run keys m)
unfolding run
run-LeftBlank [] m path e = e
run-LeftBlank ((fs, ch) ∷ keys) m path e = elim (Option-cases (press fs ch m)) [
  | inl q ↦ rw (q, run) tt
  | inr (m', q) ↦
      let e' = subst (λ r. LeftBlank path r) q (press-LeftBlank fs ch m path e) in
      rw (q, run) (run-LeftBlank keys m' path e')
]

-- If the left panel comes to a directory that cannot be read, it stays there and shows nothing
-- until the program ends, whatever keys are pressed and whatever the file system holds later: there
-- is no entry that leads back.
pub unreadable_for_ever :
    (fs : Files) (path : Text) (keys : List (Files × ℕ)) (m m' : Manager)
    → fs.opendir path ≡ none
    → m.left ≡ go fs path
    → run keys m ≡ some m'
    → (m'.left ≡ go fs path) × (m'.left.entries ≡ [])
unreadable_for_ever fs path keys m m' closed e h =
    let shown = go-blank fs path closed in
    let after = subst (λ r. LeftBlank path r) h (run-LeftBlank keys m path (e ∙ shown)) in
    (after ∙ sym shown, ap (λ (p : Panel). p.entries) after)
