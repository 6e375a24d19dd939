-- ===== src/FileManager/Paths.antt =====
-- Going into a directory and back.
use eltex_school.Base.{
  ℕ, ◌+◌, ◌-◌, ◌≡◌, ◌<◌, refl, ap, ◌∙◌, sym, Bool, true, false, none, some, List, [], ◌∷◌, ◌++◌,
  ◌==◌, length, length-append, take, get_elem?, arith, Bool-cases, inl, inr,
}
use eltex_school.Text.{Text, codes, str_eq}
use eltex_school.Text.Scan.{str_eq_iff}
use eltex_school.Text.Tokens.{Lacks}
use eltex_school.Echo.Packet.Parse.{take-all}
use eltex_school.FileManager.{
  max_path, FileEntry, Listed, Files, Panel, load_from, load_directory, strrchr, up_to, parent,
  enter, go, change_at, change_directory,
}

abbrev pub is_slash : ℕ → Bool
is_slash c = c == b'/'

strrchr-Lacks : (s : Text) → Lacks is_slash s → strrchr s ≡ none
unfolding strrchr
strrchr-Lacks [] h = refl
strrchr-Lacks (c ∷ s) h = rw (strrchr-Lacks s h.1, h.0, strrchr) refl

strrchr-append :
    (s name : Text) → Lacks is_slash name → strrchr (s ++ b'/' ∷ name) ≡ some (length s)
unfolding strrchr
strrchr-append [] name h = rw (strrchr-Lacks name h, strrchr) refl
strrchr-append (c ∷ s) name h = rw (strrchr-append s name h, strrchr) refl

take-length : (s t : Text) → take (length s) (s ++ t) ≡ s
take-length [] t = refl
take-length (c ∷ s) t = ap (λ l. c ∷ l) (take-length s t)

up_to-length : (s t : Text) → 0 < length s → up_to (s ++ t) (length s) ≡ s
up_to-length [] t h = elim h [ ]
up_to-length (c ∷ s) t h = take-length (c ∷ s) t

parent-some :
    (fs : Files) (path : Text) (i : ℕ) → strrchr path ≡ some i → parent fs path ≡ up_to path i
unfolding parent
parent-some fs path i e = rw (e, parent) refl

parent-none :
    (fs : Files) (path : Text)
    → strrchr path ≡ none
    → str_eq path (codes ".") ≡ false
    → parent fs path ≡ codes "."
unfolding parent
parent-none fs path e h = rw (e, h, parent) refl

module _ (fs : Files) (path name : Text) (plain : Lacks is_slash name)
    (fits : length path + 1 + length name < max_path) where
  parent-enter :
      0 < length path → str_eq name (codes ".") ≡ false → parent fs (enter path name) ≡ path
  unfolding enter
  parent-enter filled other = elim (Bool-cases (str_eq path (codes "."))) [
    | inl here ↦ rw here (
        ap (parent fs) (take-all (max_path - 1) name (omega (arith, fits)))
        ∙ parent-none fs name (strrchr-Lacks name plain) other
        ∙ sym ((str_eq_iff path (codes ".")).0 here))
    | inr here ↦ elim (Bool-cases (str_eq path (codes "/"))) [
      | inl root ↦
          rw (here, root)
            (ap (parent fs) (take-all (max_path - 1) (b'/' ∷ name) (omega (arith, fits, filled)))
              ∙ parent-some fs (b'/' ∷ name) 0 (strrchr-append [] name plain)
              ∙ sym ((str_eq_iff path (codes "/")).0 root))
      | inr root ↦
          let whole = path ++ b'/' ∷ name in
          rw (here, root)
            (ap (parent fs) (
                take-all (max_path - 1) whole
                  (omega (arith, fits, length-append path (b'/' ∷ name))))
              ∙ parent-some fs whole (length path) (strrchr-append path name plain)
              ∙ up_to-length path (b'/' ∷ name) filled)
    ]
  ]

change_at-into :
    (fs : Files) (p : Panel) (e : FileEntry)
    → str_eq e.name (codes "..") ≡ false
    → e.is_dir ≡ true
    → change_at fs p (some e) ≡ go fs (enter p.path e.name)
unfolding change_at
change_at-into fs p e h d = rw (h, d, change_at) refl

change_directory-up :
    (fs fs' : Files) (path : Text) (ds : List Listed)
    → fs.opendir path ≡ some ds
    → change_directory fs' (go fs path) ≡ go fs' (parent fs' path)
unfolding change_directory change_at go load_directory
change_directory-up fs fs' path ds e =
    rw (e, load_directory, load_from) (unfold load_from str_eq in refl)

-- A directory that is chosen in a panel, if it can be read and its path fits, is left again by the
-- next choice, whatever the file system holds then: the first entry leads back to the path from
-- which it was entered, and the panel lists that directory from its first entry on.
pub enter_leave :
    (fs fs' : Files) (p : Panel) (e : FileEntry) (ds : List Listed)
    → get_elem? p.entries p.selected ≡ some e
    → e.is_dir ≡ true
    → str_eq e.name (codes "..") ≡ false
    → str_eq e.name (codes ".") ≡ false
    → Lacks is_slash e.name
    → 0 < length p.path
    → length p.path + 1 + length e.name < max_path
    → fs.opendir (enter p.path e.name) ≡ some ds
    → change_directory fs' (change_directory fs p) ≡ go fs' p.path
unfolding change_directory
enter_leave fs fs' p e ds chosen dir up here plain filled fits readable =
    let into = ap (change_at fs p) chosen ∙ change_at-into fs p e up dir in
    ap (change_directory fs') into
    ∙ change_directory-up fs fs' (enter p.path e.name) ds readable
    ∙ ap (go fs') (parent-enter fs' p.path e.name plain fits filled here)
