-- ===== src/SimpleShell/Trim.antt =====
-- What the trimming of lab12/task3.c does to the words that lab10/task3.c reads.
use eltex_school.Base.{
  ℕ, zero, suc, ◌≡◌, refl, ap, ◌∙◌, sym, Option, none, some, List, [], ◌∷◌, ◌==◌, if◌then◌else◌,
  Bool-cases, Option-cases, inl, inr,
}
use eltex_school.Text.{Text, strtok, skip_delims, split_delim, token_at}
use eltex_school.Shell.{skip_blanks, put_before, drop_blanks, trim, trim_end}
use eltex_school.Shell.Parse.{Solid, put_before-solid}
use eltex_school.SimpleShell.{is_space, split_args}

-- Spaces at the end of a line change neither its tokens nor where they end.
split_delim-put_before :
    (c : ℕ) (d : Text)
    → split_delim is_space (put_before c d) ≡ (
        if c == b' ' then ([], d) else (c ∷ (split_delim is_space d).0, (split_delim is_space d).1))
unfolding split_delim
split_delim-put_before c [] = elim (Bool-cases (c == b' ')) [
  | inl e ↦ rw e refl
  | inr e ↦ rw (e, split_delim) (rw e refl)
]
split_delim-put_before c (x ∷ d) = refl

split_delim-drop_blanks :
    (t : Text)
    → split_delim is_space (drop_blanks t)
      ≡ ((split_delim is_space t).0, drop_blanks (split_delim is_space t).1)
unfolding split_delim drop_blanks
split_delim-drop_blanks [] = refl
split_delim-drop_blanks (c ∷ s) =
    let ih = split_delim-drop_blanks s in
    split_delim-put_before c (drop_blanks s)
    ∙ elim (Bool-cases (c == b' ')) [ inl e ↦ rw e refl | inr e ↦ rw (e, ih) refl ]

skip_delims-put_before :
    (c : ℕ) (d : Text)
    → skip_delims is_space (put_before c d) ≡ (if c == b' ' then skip_delims is_space d else c ∷ d)
unfolding skip_delims
skip_delims-put_before c [] = elim (Bool-cases (c == b' ')) [
  | inl e ↦ rw e refl
  | inr e ↦ rw (e, skip_delims) (rw e refl)
]
skip_delims-put_before c (x ∷ d) = refl

skip_delims-drop_blanks :
    (t : Text) → skip_delims is_space (drop_blanks t) ≡ drop_blanks (skip_delims is_space t)
unfolding skip_delims drop_blanks
skip_delims-drop_blanks [] = refl
skip_delims-drop_blanks (c ∷ s) =
    let ih = skip_delims-drop_blanks s in
    skip_delims-put_before c (drop_blanks s) ∙ elim (Bool-cases (c == b' ')) [
      | inl e ↦ rw e ih
      | inr e ↦ rw e (sym (put_before-solid c (drop_blanks s) e))
    ]

skip_delims-Solid : (t : Text) → Solid (skip_delims is_space t)
unfolding skip_delims
skip_delims-Solid [] = tt
skip_delims-Solid (c ∷ t) = elim (Bool-cases (c == b' ')) [
  | inl e ↦ rw e (skip_delims-Solid t)
  | inr e ↦ rw e e
]

-- A token, and what follows it without its last spaces.
abbrev trimmed : Option (Text × Text) → Option (Text × Text)
trimmed none = none
trimmed (some (w, r)) = some (w, drop_blanks r)

token_at-drop_blanks :
    (u : Text) → Solid u → token_at is_space (drop_blanks u) ≡ trimmed (token_at is_space u)
unfolding token_at
token_at-drop_blanks [] h = unfold drop_blanks in refl
token_at-drop_blanks (c ∷ s) h =
    let solid : drop_blanks (c ∷ s) ≡ c ∷ drop_blanks s =
      unfold drop_blanks in put_before-solid c (drop_blanks s) h in
    ap (token_at is_space) solid
    ∙ ap (λ t. some (split_delim is_space t)) (sym solid)
    ∙ ap some (split_delim-drop_blanks (c ∷ s))

strtok-drop_blanks : (t : Text) → strtok is_space (drop_blanks t) ≡ trimmed (strtok is_space t)
unfolding strtok
strtok-drop_blanks t =
    ap (token_at is_space) (skip_delims-drop_blanks t)
    ∙ token_at-drop_blanks (skip_delims is_space t) (skip_delims-Solid t)

abbrev pub split_after : ℕ → Option (Text × Text) → List Text
split_after n none = []
split_after n (some (w, r)) = w ∷ split_args n r

pub split_args-suc : (n : ℕ) (t : Text) → split_args (suc n) t ≡ split_after n (strtok is_space t)
unfolding split_args
split_args-suc n t = elim (Option-cases (strtok is_space t)) [
  | inl q ↦ rw (q, split_args) refl
  | inr (p, q) ↦ rw (q, split_args) refl
]

split_after-trimmed :
    (n : ℕ) (o : Option (Text × Text))
    → ((r : Text) → split_args n (drop_blanks r) ≡ split_args n r)
    → split_after n (trimmed o) ≡ split_after n o
split_after-trimmed n none h = refl
split_after-trimmed n (some (w, r)) h = ap (λ l. w ∷ l) (h r)

split_args-drop_blanks : (n : ℕ) (t : Text) → split_args n (drop_blanks t) ≡ split_args n t
split_args-drop_blanks zero t = unfold split_args in refl
split_args-drop_blanks (suc n) t =
    split_args-suc n (drop_blanks t)
    ∙ ap (split_after n) (strtok-drop_blanks t)
    ∙ split_after-trimmed n (strtok is_space t) (split_args-drop_blanks n)
    ∙ sym (split_args-suc n t)

skip_delims-skip_blanks : (t : Text) → skip_delims is_space (skip_blanks t) ≡ skip_delims is_space t
unfolding skip_delims skip_blanks
skip_delims-skip_blanks [] = refl
skip_delims-skip_blanks (c ∷ t) = elim (Bool-cases (c == b' ')) [
  | inl e ↦ rw e (skip_delims-skip_blanks t)
  | inr e ↦ rw e (rw (e, skip_delims) refl)
]

strtok-skip_blanks : (t : Text) → strtok is_space (skip_blanks t) ≡ strtok is_space t
unfolding strtok
strtok-skip_blanks t = ap (token_at is_space) (skip_delims-skip_blanks t)

split_args-skip_blanks : (n : ℕ) (t : Text) → split_args n (skip_blanks t) ≡ split_args n t
split_args-skip_blanks zero t = unfold split_args in refl
split_args-skip_blanks (suc n) t =
    split_args-suc n (skip_blanks t)
    ∙ ap (split_after n) (strtok-skip_blanks t)
    ∙ sym (split_args-suc n t)

pub skip_blanks-Solid : (t : Text) → Solid (skip_blanks t)
unfolding skip_blanks
skip_blanks-Solid [] = tt
skip_blanks-Solid (c ∷ t) = elim (Bool-cases (c == b' ')) [
  | inl e ↦ rw e (skip_blanks-Solid t)
  | inr e ↦ rw e e
]

pub trim_end-Solid : (u : Text) → Solid u → trim_end u ≡ drop_blanks u
trim_end-Solid [] h = unfold drop_blanks in refl
trim_end-Solid (c ∷ u) h = unfold drop_blanks in sym (put_before-solid c (drop_blanks u) h)

-- What `parse_pipeline` takes off a command does not change its words.
pub split_args-trim : (n : ℕ) (t : Text) → split_args n (trim t) ≡ split_args n t
unfolding trim
split_args-trim n t =
    ap (split_args n) (trim_end-Solid (skip_blanks t) (skip_blanks-Solid t))
    ∙ split_args-drop_blanks n (skip_blanks t)
    ∙ split_args-skip_blanks n t
