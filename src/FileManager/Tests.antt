-- ===== src/FileManager/Tests.antt =====
-- The theorems of the file manager at a small file system.
use eltex_school.Base.{ℕ, ◌≡◌, refl, true, false, none, some, List, [], ◌∷◌, arith, if◌then◌else◌}
use eltex_school.Text.{codes, str_eq}
use eltex_school.FileManager.{
  Listed, Files, Panel, Manager, change_directory, enter, go, run, start, load_directory,
}
use eltex_school.FileManager.Panels.{ResultIsManager, started-IsManager}
use eltex_school.FileManager.Paths.{enter_leave}
use eltex_school.FileManager.Unreadable.{unreadable_for_ever}

abbrev listing : List Listed
listing =
    record { d_name = codes "."; stat = some true }
    ∷ record { d_name = codes "docs"; stat = some true }
    ∷ record { d_name = codes "gone"; stat = none }
    ∷ []

-- Only `here` and its `docs` can be read.
abbrev files : Files
files = record {
  opendir = λ path.
      if str_eq path (codes "here")
      then some listing
      else if str_eq path (codes "here/docs")
      then some []
      else none;
  getcwd = some (codes "/home/user/here");
}

abbrev panel : Panel
panel = record {
  path = codes "here";
  entries =
      record { name = codes ".."; is_dir = true }
      ∷ record { name = codes "docs"; is_dir = true }
      ∷ [];
  selected = 1;
}

loaded : load_directory files (codes "here") ≡ panel.entries
unfolding load_directory str_eq
loaded = refl

enter_leave_example :
    change_directory files (change_directory files panel) ≡ go files (codes "here")
unfolding enter str_eq
enter_leave_example =
    enter_leave files files panel (record { name = codes "docs"; is_dir = true }) [] refl refl refl
      refl (refl, (refl, (refl, (refl, tt)))) (omega arith) (omega arith) refl

abbrev manager : Manager
manager = record { left = panel; right = panel; right_active = false }

abbrev keys : List (Files × ℕ)
keys = (files, 258) ∷ (files, 9) ∷ (files, 10) ∷ (files, 10) ∷ []

started-IsManager_example : ResultIsManager (run keys (start files))
started-IsManager_example =
    started-IsManager files keys (omega arith, (omega arith, (omega arith, (omega arith, tt))))

abbrev lost : Manager
lost = record manager { left = record { path = codes "secret"; entries = []; selected = 0 } }

abbrev later : Manager
later = record lost { right_active = true }

reached : run ((files, 10) ∷ (files, 258) ∷ (files, 9) ∷ []) lost ≡ some later
unfolding run
reached = refl

lost_shown : lost.left ≡ go files (codes "secret")
unfolding go load_directory str_eq
lost_shown = refl

secret_closed : files.opendir (codes "secret") ≡ none
unfolding str_eq
secret_closed = refl

unreadable_for_ever_example : (later.left ≡ go files (codes "secret")) × (later.left.entries ≡ [])
unreadable_for_ever_example =
    unreadable_for_ever files (codes "secret") ((files, 10) ∷ (files, 258) ∷ (files, 9) ∷ []) lost
      later secret_closed lost_shown reached
