-- ===== src/RawClient/Modify.antt =====
-- lab16/task4/udp_modify_server.c: the server that changes one character of a text. What `rand`
-- returns are arguments; characters from 128 on are no letters in the C locale.
use eltex_school.Base.{
  ℕ, zero, suc, ◌+◌, ◌-◌, ◌%◌, ◌≡◌, ◌≢◌, ◌<◌, Bool, true, false, ◌||◌, ◌&&◌, Option, none, some,
  List, [], ◌∷◌, ◌++◌, leb, if◌then◌else◌, length, take, replicate, get_or, set, length-set, refl,
  ap, arith, Bool-cases, inl, inr,
}
use eltex_school.Text.{Text, is_digit}
use eltex_school.Echo.Packet.Parse.{NoNul}
use eltex_school.RawClient.{c_string}

abbrev pub buffer_size : ℕ
buffer_size = 1024

abbrev pub is_upper : ℕ → Bool
is_upper c = leb 65 c && leb c 90

abbrev pub is_lower : ℕ → Bool
is_lower c = leb 97 c && leb c 122

abbrev pub is_alpha : ℕ → Bool
is_alpha c = is_upper c || is_lower c

-- What is put in the place of a character.
unfoldable pub modified : (rand : ℕ) → ℕ → ℕ
modified rand c =
    if is_alpha c
    then (if is_upper c then c + 32 else c - 32)
    else if is_digit c
    then b'0' + rand % 10
    else b'*'

-- The place is chosen by the first number that `rand` returns.
unfoldable pub modify_random_char : (rand rand' : ℕ) → Text → Text
unfolding modified
modify_random_char rand rand' [] = []
modify_random_char rand rand' (c ∷ str) =
    let pos = rand % length (c ∷ str) in set (c ∷ str) pos (modified rand' (get_or (c ∷ str) pos 0))

-- A round of `main`: what it answers, or `none` where no NUL follows the text in the buffer.
unfoldable pub serve : (rand rand' : ℕ) → (received : List ℕ) → Option (List ℕ)
unfolding c_string modify_random_char
serve rand rand' received =
    elim (c_string (take buffer_size received ++ replicate (buffer_size - length received) 0)) [
      | none ↦ none
      | some text ↦ some (modify_random_char rand rand' text ++ 0 ∷ [])
    ]

-- What may stand in the place of a character: the letter in the other case, any digit for a digit,
-- and an asterisk for anything else.
pub data Changed (c c' : ℕ) : Type 0 where
  lowered : is_upper c ≡ true → c' ≡ c + 32 → Changed c c'
  raised : is_lower c ≡ true → c' + 32 ≡ c → Changed c c'
  other_digit : is_digit c ≡ true → is_digit c' ≡ true → Changed c c'
  starred : (is_alpha c || is_digit c) ≡ false → c' ≡ b'*' → Changed c c'

modified-Changed : (rand c : ℕ) → Changed c (modified rand c)
unfolding modified
modified-Changed rand c = elim (Bool-cases (is_upper c)) [
  | inl up ↦ lowered up (ground (arith, up))
  | inr up ↦ elim (Bool-cases (is_lower c)) [
    | inl low ↦ raised low (ground (arith, up, low))
    | inr low ↦ elim (Bool-cases (is_digit c)) [
      | inl digit ↦ other_digit digit (ground (arith, up, low, digit))
      | inr digit ↦ starred (ground (arith, up, low, digit)) (ground (arith, up, low, digit))
    ]
  ]
]

-- `new` is `old` with another character at `pos`, and only there.
pub record OneChanged (pos : ℕ) (old new : Text) : Type 0 where
  pub before : Text
  pub after : Text
  pub c : ℕ
  pub c' : ℕ
  pub place : length before ≡ pos
  pub was : old ≡ before ++ c ∷ after
  pub becomes : new ≡ before ++ c' ∷ after
  pub changed : Changed c c'

mod_bound : (r n : ℕ) → r % suc n < suc n
mod_bound r n = grind arith

set-OneChanged :
    (s : Text) (pos v : ℕ)
    → pos < length s
    → Changed (get_or s pos 0) v
    → OneChanged pos s (set s pos v)
set-OneChanged [] pos v h k = absurd (omega (arith, h))
set-OneChanged (c ∷ s) zero v h k = record {
  before = [];
  after = s;
  c = c;
  c' = v;
  place = refl;
  was = refl;
  becomes = refl;
  changed = k;
}
set-OneChanged (c ∷ s) (suc pos) v h k =
    let r = set-OneChanged s pos v (omega (arith, h)) k in
    record {
      before = c ∷ r.before;
      after = r.after;
      c = r.c;
      c' = r.c';
      place = omega (arith, r.place);
      was = ap (λ l. c ∷ l) r.was;
      becomes = ap (λ l. c ∷ l) r.becomes;
      changed = r.changed;
    }

-- In a text that is not empty one character is changed, at the place that `rand` gives.
pub modify_random_char-OneChanged :
    (rand rand' c : ℕ) (str : Text)
    → OneChanged (rand % length (c ∷ str)) (c ∷ str) (modify_random_char rand rand' (c ∷ str))
unfolding modify_random_char
modify_random_char-OneChanged rand rand' c str =
    let old = c ∷ str in
    let pos = rand % length old in
    set-OneChanged old pos (modified rand' (get_or old pos 0)) (mod_bound rand (length str))
      (modified-Changed rand' (get_or old pos 0))

pub length-modify_random_char :
    (rand rand' : ℕ) (str : Text) → length (modify_random_char rand rand' str) ≡ length str
unfolding modify_random_char
length-modify_random_char rand rand' [] = refl
length-modify_random_char rand rand' (c ∷ str) =
    let pos = rand % length (c ∷ str) in
    length-set (c ∷ str) pos (modified rand' (get_or (c ∷ str) pos 0))

modified_filled : (rand c : ℕ) → modified rand c ≢ 0
unfolding modified
modified_filled rand c = ground arith

set-NoNul : (s : Text) (i v : ℕ) → NoNul s → v ≢ 0 → NoNul (set s i v)
set-NoNul [] i v h k = tt
set-NoNul (c ∷ s) zero v h k = (k, h.1)
set-NoNul (c ∷ s) (suc i) v h k = (h.0, set-NoNul s i v h.1 k)

pub modify_random_char-NoNul :
    (rand rand' : ℕ) (s : Text) → NoNul s → NoNul (modify_random_char rand rand' s)
unfolding modify_random_char
modify_random_char-NoNul rand rand' [] h = tt
modify_random_char-NoNul rand rand' (c ∷ s) h =
    let pos = rand % length (c ∷ s) in
    set-NoNul (c ∷ s) pos _ h (modified_filled rand' (get_or (c ∷ s) pos 0))
