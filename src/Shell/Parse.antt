-- ===== src/Shell/Parse.antt =====
-- How pipelines are written out, and the reading of the words and the trimming of a command.
use eltex_school.Base.{
  ℕ, zero, suc, ◌≡◌, ◌<◌, ◌≤◌, refl, ap, ◌∙◌, sym, subst, Bool, false, ◌||◌, ◌==◌, some, List, [],
  ◌∷◌, ◌++◌, length, length-append, arith,
}
use mathlib.Core.List.{append_assoc, append-nil}
use eltex_school.Text.{Text, strtok, skip_delims, token_at}
use eltex_school.Text.Tokens.{Lacks, Lacks-weaken, strtok-append, strtok-whole}
use eltex_school.Shell.{is_bar, is_blank, put_before, drop_blanks, trim, parse_args}

-- The bytes that separate words and commands.
abbrev pub is_special : ℕ → Bool
is_special c = is_bar c || is_blank c

abbrev pub AllWords : List Text → Type 0
AllWords [] = Unit {0}
AllWords (w ∷ ws) = ((0 < length w) × Lacks is_special w) × AllWords ws

abbrev pub IsCommand : List Text → Type 0
IsCommand ws = (0 < length ws) × (length ws ≤ 63) × AllWords ws

abbrev pub AllCommands : List (List Text) → Type 0
AllCommands [] = Unit {0}
AllCommands (c ∷ cs) = IsCommand c × AllCommands cs

unfoldable pub show_command : List Text → Text
show_command [] = []
show_command (w ∷ []) = w
show_command (w ∷ v ∷ ws) = w ++ b' ' ∷ show_command (v ∷ ws)

unfoldable pub show_pipeline : List (List Text) → Text
unfolding show_command
show_pipeline [] = []
show_pipeline (c ∷ []) = show_command c
show_pipeline (c ∷ d ∷ cs) = (show_command c ++ b' ' ∷ []) ++ b'|' ∷ b' ' ∷ show_pipeline (d ∷ cs)

no_blank : (c : ℕ) → is_special c ≡ false → is_blank c ≡ false
no_blank c h = ground (arith, h)

pub no_bar : (c : ℕ) → is_special c ≡ false → is_bar c ≡ false
no_bar c h = ground (arith, h)

-- Words.
parse_args-step :
    (n : ℕ) (x r : Text) → strtok is_blank x ≡ some (r, []) → parse_args (suc n) x ≡ r ∷ []
unfolding parse_args strtok
parse_args-step zero x r e = rw (e, parse_args) refl
parse_args-step (suc n) x r e = rw (e, parse_args) refl

parse_args-next :
    (n : ℕ) (x w r : Text)
    → strtok is_blank x ≡ some (w, r)
    → parse_args (suc n) x ≡ w ∷ parse_args n r
unfolding parse_args
parse_args-next n x w r e = rw (e, parse_args) refl

pub parse_args-show :
    (n : ℕ) (ws : List Text) → AllWords ws → length ws ≤ n → parse_args n (show_command ws) ≡ ws
unfolding show_command
parse_args-show zero [] a h = unfold parse_args in refl
parse_args-show (suc n) [] a h = unfold parse_args strtok skip_delims token_at in refl
parse_args-show zero (w ∷ ws) a h = absurd (omega (arith, h))
parse_args-show (suc n) (w ∷ []) a h =
    parse_args-step n w w
      (strtok-whole is_blank w (Lacks-weaken is_special is_blank w no_blank a.0.1) a.0.0)
parse_args-show (suc n) (w ∷ v ∷ ws) a h =
    parse_args-next n (w ++ b' ' ∷ show_command (v ∷ ws)) w (show_command (v ∷ ws)) (
      strtok-append is_blank w b' ' (show_command (v ∷ ws))
        (Lacks-weaken is_special is_blank w no_blank a.0.1) a.0.0 refl)
    ∙ ap (λ l. w ∷ l) (parse_args-show n (v ∷ ws) a.1 (omega (arith, h)))

-- Spaces at the end.
put_before-filled : (c : ℕ) (t : Text) → 0 < length t → put_before c t ≡ c ∷ t
put_before-filled c [] h = elim h [ ]
put_before-filled c (d ∷ t) h = refl

pub put_before-solid : (c : ℕ) (t : Text) → (c == b' ') ≡ false → put_before c t ≡ c ∷ t
put_before-solid c [] h = rw h
put_before-solid c (d ∷ t) h = refl

drop_blanks-append : (x y : Text) → drop_blanks y ≡ y → 0 < length y → drop_blanks (x ++ y) ≡ x ++ y
unfolding drop_blanks
drop_blanks-append [] y e h = e
drop_blanks-append (c ∷ x) y e h =
    rw (drop_blanks-append x y e h)
      (put_before-filled c (x ++ y) (omega (arith, h, length-append x y)))

drop_blanks-word : (w : Text) → Lacks is_special w → drop_blanks w ≡ w
unfolding drop_blanks
drop_blanks-word [] a = refl
drop_blanks-word (c ∷ w) a =
    rw (drop_blanks-word w a.1) (put_before-solid c w (ground (arith, a.0)))

drop_blanks-space : (t : Text) → drop_blanks (t ++ b' ' ∷ []) ≡ drop_blanks t
unfolding drop_blanks
drop_blanks-space [] = refl
drop_blanks-space (c ∷ t) = ap (put_before c) (drop_blanks-space t)

pub length-show_command :
    (ws : List Text) → AllWords ws → 0 < length ws → 0 < length (show_command ws)
unfolding show_command
length-show_command [] a h = h
length-show_command (w ∷ []) a h = a.0.0
length-show_command (w ∷ v ∷ ws) a h =
    omega (arith, a.0.0, length-append w (b' ' ∷ show_command (v ∷ ws)))

drop_blanks-show : (ws : List Text) → AllWords ws → drop_blanks (show_command ws) ≡ show_command ws
unfolding show_command
drop_blanks-show [] a = unfold drop_blanks in refl
drop_blanks-show (w ∷ []) a = drop_blanks-word w a.0.1
drop_blanks-show (w ∷ v ∷ ws) a =
    let rest = show_command (v ∷ ws) in
    let filled = length-show_command (v ∷ ws) a.1 (omega arith) in
    let tail = drop_blanks-append (b' ' ∷ []) rest (drop_blanks-show (v ∷ ws) a.1) filled in
    drop_blanks-append w (b' ' ∷ rest) tail (omega arith)

-- A text that begins with a byte that is no space.
abbrev pub Solid : Text → Type 0
Solid [] = Unit {0}
Solid (c ∷ t) = (c == b' ') ≡ false

pub trim-Solid : (t : Text) → Solid t → trim t ≡ drop_blanks t
unfolding trim
trim-Solid [] h = refl
trim-Solid (c ∷ t) h = rw h (sym (put_before-solid c (drop_blanks t) h))

Solid-append : (w t : Text) → 0 < length w → Lacks is_special w → Solid (w ++ t)
Solid-append [] t h a = elim h [ ]
Solid-append (c ∷ w) t h a = ground (arith, a.0)

show_command-Solid : (ws : List Text) (t : Text) → IsCommand ws → Solid (show_command ws ++ t)
unfolding show_command
show_command-Solid [] t a = absurd (omega (arith, a.0))
show_command-Solid (w ∷ []) t a = Solid-append w t a.2.0.0 a.2.0.1
show_command-Solid (w ∷ v ∷ ws) t a =
    subst (λ x. Solid x) (sym (append_assoc w (b' ' ∷ show_command (v ∷ ws)) t))
      (Solid-append w ((b' ' ∷ show_command (v ∷ ws)) ++ t) a.2.0.0 a.2.0.1)

-- A command with a space behind it or none, and with a space in front of it or none.
pub trim-space : (t : Text) → trim (b' ' ∷ t) ≡ trim t
unfolding trim
trim-space t = refl

pub trim-command : (ws : List Text) → IsCommand ws → trim (show_command ws) ≡ show_command ws
trim-command ws a =
    trim-Solid (show_command ws)
      (subst (λ x. Solid x) (append-nil (show_command ws)) (show_command-Solid ws [] a))
    ∙ drop_blanks-show ws a.2

pub trim-command_space :
    (ws : List Text) → IsCommand ws → trim (show_command ws ++ b' ' ∷ []) ≡ show_command ws
trim-command_space ws a =
    trim-Solid (show_command ws ++ b' ' ∷ []) (show_command-Solid ws (b' ' ∷ []) a)
    ∙ drop_blanks-space (show_command ws)
    ∙ drop_blanks-show ws a.2
