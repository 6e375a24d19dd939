-- ===== src/Chat/Input.antt =====
-- lab14/chat_client.c: the line editor of `send_messages`. `wgetch` returns a key or an error.
use eltex_school.Base.{
  ℕ, zero, suc, ◌-◌, ◌<◌, ◌≡◌, Bool, true, ◌&&◌, ◌||◌, Option, none, some, List, [], ◌∷◌, ◌++◌,
  arith, ltb, leb, ◌==◌, if◌then◌else◌, length, take, length-take, length-append, Bool-cases, inl,
  inr,
}
use eltex_school.Text.{Text}
use eltex_school.Chat.{max_msg_size}

pub data Edit : Type 0 where
  typing : (input : Text) → Edit
  entered : (input : Text) → Edit
  escaped : Edit

-- `ch == KEY_BACKSPACE || ch == 127`, with the value that ncurses gives KEY_BACKSPACE.
abbrev pub is_backspace : ℕ → Bool
is_backspace ch = ch == 263 || ch == 127

abbrev pub is_printable : ℕ → Bool
is_printable ch = leb 32 ch && leb ch 126

-- One round of the inner loop: `pos` is the length of the input.
unfoldable pub press : Option ℕ → Text → Edit
press none input = typing input
press (some ch) input =
    if ch == b'\n'
    then entered input
    else if ch == 27
    then escaped
    else if is_backspace ch
    then typing (take (length input - 1) input)
    else if is_printable ch && ltb (length input) (max_msg_size - 1)
    then typing (input ++ ch ∷ [])
    else typing input

-- The inner loop, from the first key on.
unfoldable pub edit : List (Option ℕ) → Edit → Edit
unfolding press
edit keys escaped = escaped
edit keys (entered input) = entered input
edit [] (typing input) = typing input
edit (k ∷ keys) (typing input) = edit keys (press k input)

abbrev pub AllPrintable : Text → Type 0
AllPrintable [] = Unit {0}
AllPrintable (c ∷ cs) = (is_printable c ≡ true) × AllPrintable cs

-- A line that fits `input` and `content`, with its NUL, and in which `strcpy` finds no other.
pub record IsLine (t : Text) : Type 0 where
  pub fits : length t < max_msg_size
  pub printable : AllPrintable t

abbrev pub EditIsLine : Edit → Type 0
EditIsLine (typing input) = IsLine input
EditIsLine (entered input) = IsLine input
EditIsLine escaped = Unit {0}

take-AllPrintable : (n : ℕ) (t : Text) → AllPrintable t → AllPrintable (take n t)
take-AllPrintable zero t p = tt
take-AllPrintable (suc n) [] p = tt
take-AllPrintable (suc n) (c ∷ t) p = (p.0, take-AllPrintable n t p.1)

snoc-AllPrintable :
    (t : Text) (c : ℕ) → AllPrintable t → is_printable c ≡ true → AllPrintable (t ++ c ∷ [])
snoc-AllPrintable [] c p h = (h, tt)
snoc-AllPrintable (d ∷ t) c p h = (p.0, snoc-AllPrintable t c p.1 h)

press-IsLine : (k : Option ℕ) (t : Text) → IsLine t → EditIsLine (press k t)
unfolding press
press-IsLine none t v = v
press-IsLine (some ch) t v = elim (Bool-cases (ch == b'\n')) [
  | inl e ↦ rw e v
  | inr e ↦ elim (Bool-cases (ch == 27)) [
    | inl esc ↦ rw (e, esc) tt
    | inr esc ↦ elim (Bool-cases (is_backspace ch)) [
      | inl back ↦
          rw (e, esc, back)
            (record {
              fits = omega (arith, v.fits, length-take (length t - 1) t);
              printable = take-AllPrintable (length t - 1) t v.printable;
            })
      | inr back ↦ elim (Bool-cases (is_printable ch && ltb (length t) (max_msg_size - 1))) [
        | inl typed ↦
            rw (e, esc, back, typed)
              (record {
                fits = ground (arith, typed, length-append t (ch ∷ []));
                printable = snoc-AllPrintable t ch v.printable (ground (arith, typed));
              })
        | inr other ↦ rw (e, esc, back, other) v
      ]
    ]
  ]
]

-- From a printable line that fits its 512 bytes, such as the empty one, whatever keys are pressed:
-- what stands in `input`, and what is entered, is a printable line that fits.
pub edit-IsLine : (keys : List (Option ℕ)) (e : Edit) → EditIsLine e → EditIsLine (edit keys e)
unfolding edit
edit-IsLine keys escaped v = v
edit-IsLine keys (entered input) v = v
edit-IsLine [] (typing input) v = v
edit-IsLine (k ∷ keys) (typing input) v = edit-IsLine keys (press k input) (press-IsLine k input v)
