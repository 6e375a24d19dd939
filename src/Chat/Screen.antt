-- ===== src/Chat/Screen.antt =====
-- lab14/chat_client.c: `add_message` and `update_user_list`, which write into windows.
use eltex_school.Base.{
  ℕ, zero, suc, ◌+◌, ◌-◌, ◌≤◌, ◌≡◌, refl, Bool, false, ◌&&◌, Option, none, some, List, [], ◌∷◌,
  ◌++◌, arith, ltb, leb, ◌==◌, if◌then◌else◌, length, take, length-take, length-append, Bool-cases,
  inl, inr,
}
use eltex_school.Text.{Text, codes, str_eq, strtok}
use eltex_school.Chat.{max_msg_size, max_name_len}

-- `formatted`.
unfoldable pub format : (sender msg : Text) → Text
format sender msg =
    let prefix = if str_eq sender (codes "SYSTEM") then codes "] " else codes "]: " in
    take (max_msg_size + max_name_len + 10 - 1) (b'[' ∷ sender ++ prefix ++ msg)

-- The text cut to the width of the window; `none` where `maxx - 7` is negative and `strncpy` writes
-- without bound.
unfoldable pub cut : (maxx : ℕ) → Text → Option Text
cut maxx formatted =
    if leb 4 maxx && ltb (maxx - 4) (length formatted)
    then (if ltb maxx 7 then none else some (take (maxx - 7) formatted ++ codes "..."))
    else some formatted

-- What a message does to a window of at least 4 rows: whether it scrolls, the row that is written,
-- the text, and the new `msg_lines`.
pub record Shown : Type 0 where
  pub scrolled : Bool
  pub row : ℕ
  pub text : Option Text
  pub msg_lines : ℕ

unfoldable pub add_message : (maxy maxx msg_lines : ℕ) → (sender msg : Text) → Shown
unfolding format cut
add_message maxy maxx msg_lines sender msg =
    let full = leb (maxy - 3) msg_lines in
    let lines = if full then maxy - 4 else msg_lines in
    record {
      scrolled = full;
      row = lines + 1;
      text = cut maxx (format sender msg);
      msg_lines = lines + 1;
    }

cut_inside :
    (maxx : ℕ) (f : Text) → 7 ≤ maxx → (t : Text) × (cut maxx f ≡ some t) × (length t + 4 ≤ maxx)
unfolding cut
cut_inside maxx f h = elim (Bool-cases (leb 4 maxx && ltb (maxx - 4) (length f))) [
  | inl long ↦
      let wide : ltb maxx 7 ≡ false = ground arith in
      rw (long, wide)
        (
          take (maxx - 7) f ++ codes "...",
          refl,
          omega
              (arith, h, length-append (take (maxx - 7) f) (codes "..."), length-take (maxx - 7) f),
        )
  | inr short ↦ rw short (f, refl, ground (arith, h, short))
]

-- In a window of at least 4 rows and 7 columns every message is shown inside the border: below the
-- top line and above the bottom line, and within the columns between the sides.
pub add_message_inside :
    (maxy maxx msg_lines : ℕ) (sender msg : Text)
    → 4 ≤ maxy
    → 7 ≤ maxx
    → let shown = add_message maxy maxx msg_lines sender msg in
      (shown.row + 2 ≤ maxy)
      × (shown.msg_lines + 3 ≤ maxy)
      × ((t : Text) × (shown.text ≡ some t) × (length t + 4 ≤ maxx))
unfolding add_message
add_message_inside maxy maxx msg_lines sender msg hy hx =
    (ground (arith, hy), ground (arith, hy), cut_inside maxx (format sender msg) hx)

-- The loop of `update_user_list`, from line 1 on: `n` lines are left.
abbrev pub is_comma : ℕ → Bool
is_comma c = c == b','

unfoldable pub user_rows : ℕ → Text → List Text
user_rows zero temp = []
user_rows (suc n) temp = elim (strtok is_comma temp) [
  | none ↦ []
  | some (token, rest) ↦ token ∷ user_rows n rest
]

unfoldable pub update_user_list : (maxy : ℕ) → Text → List Text
unfolding user_rows
update_user_list maxy user_list = user_rows (maxy - 3) user_list
