-- ===== src/Text.antt =====
-- The text functions of the C library that the programs call, over bytes. A text is the list of
-- its bytes before the NUL; input is taken to hold no NUL byte. Numbers that `%d` and `atoi` read
-- are taken to fit an `int`.
pub mod Decimal
pub mod Scan
pub mod Tokens
use Prim.Native.Char.{code}
use Prim.Native.String.{String}
use eltex_school.Base.{
  ℕ, ◌+◌, ◌-◌, ◌*◌, ◌/◌, ◌%◌, Bool, true, false, ◌&&◌, ◌||◌, Option, none, some, List, [], ◌∷◌, ltb,
  leb, ◌==◌, if◌then◌else◌, suc, zero,
}
use eltex_school.Base.Int.{ℤ, pos, negsuc, neg_ℕ}

abbrev pub Text : Type 0
Text = List ℕ

-- The bytes of an ASCII literal.
abbrev pub codes : String → Text
codes String.[] = []
codes (String.◌∷◌ c s) = code c ∷ codes s

-- `isspace` and `isdigit` in the C locale.
abbrev pub is_space : ℕ → Bool
is_space c = c == 32 || leb 9 c && leb c 13

abbrev pub is_digit : ℕ → Bool
is_digit c = leb 48 c && leb c 57

-- `strcmp (s, t) == 0`.
unfoldable pub str_eq : Text → Text → Bool
str_eq [] [] = true
str_eq [] (d ∷ t) = false
str_eq (c ∷ s) [] = false
str_eq (c ∷ s) (d ∷ t) = c == d && str_eq s t

-- `strncmp (s, t, strlen (t)) == 0`: `s` begins with `t`.
unfoldable pub starts_with : Text → Text → Bool
starts_with s [] = true
starts_with [] (d ∷ t) = false
starts_with (c ∷ s) (d ∷ t) = c == d && starts_with s t

unfoldable pub skip_space : Text → Text
skip_space [] = []
skip_space (c ∷ s) = if is_space c then skip_space s else c ∷ s

-- At most `n` bytes up to the next space, and what follows them.
unfoldable pub take_word : ℕ → Text → Text × Text
take_word zero s = ([], s)
take_word (suc n) [] = ([], [])
take_word (suc n) (c ∷ s) =
    let rest = take_word n s in if is_space c then ([], c ∷ s) else (c ∷ rest.0, rest.1)

unfoldable pub word_at : ℕ → Text → Option Text × Text
unfolding take_word
word_at n [] = (none, [])
word_at n (c ∷ s) = let word = take_word n (c ∷ s) in (some word.0, word.1)

-- `scanf ("%ns", …)`: the word that it stores, `none` at the end of the input, and the input left.
unfoldable pub scan_word : ℕ → Text → Option Text × Text
unfolding skip_space word_at
scan_word n s = word_at n (skip_space s)

-- The number that the digits ahead spell behind the number `acc`, and what follows them.
unfoldable pub read_digits : ℕ → Text → ℕ × Text
read_digits acc [] = (acc, [])
read_digits acc (c ∷ s) = if is_digit c then read_digits (acc * 10 + (c - 48)) s else (acc, c ∷ s)

-- The digits that a number must begin with.
unfoldable pub read_number : Text → Option ℕ × Text
unfolding read_digits
read_number [] = (none, [])
read_number (c ∷ s) =
    if is_digit c then (let n = read_digits 0 (c ∷ s) in (some n.0, n.1)) else (none, c ∷ s)

abbrev pub signed {ℓ} : {A : Type ℓ} → (ℕ → ℤ) → Option ℕ × A → Option ℤ × A
signed f (none, r) = (none, r)
signed f (some n, r) = (some (f n), r)

unfoldable pub read_int : Text → Option ℤ × Text
unfolding read_number
read_int [] = (none, [])
read_int (c ∷ s) =
    if c == b'-'
    then signed neg_ℕ (read_number s)
    else signed pos (read_number (if c == b'+' then s else c ∷ s))

-- `scanf ("%d", …)`: the number, `none` if it reads none, and the input left. A sign that no digit
-- follows is consumed; other input that is no number stays.
unfoldable pub scan_int : Text → Option ℤ × Text
unfolding skip_space read_int
scan_int s = read_int (skip_space s)

abbrev pub or_zero : Option ℤ → ℤ
or_zero none = pos 0
or_zero (some n) = n

-- `atoi`.
unfoldable pub atoi : Text → ℤ
unfolding scan_int
atoi s = or_zero (scan_int s).0

-- The digits of `n` in front of `acc`; `suc n` rounds are more than enough.
unfoldable pub digits_loop : ℕ → ℕ → Text → Text
digits_loop zero n acc = acc
digits_loop (suc k) n acc =
    let more = digits_loop k (n / 10) ((48 + n % 10) ∷ acc) in
    if ltb n 10 then (48 + n) ∷ acc else more

-- `printf ("%u", n)`.
unfoldable pub show_nat : ℕ → Text
unfolding digits_loop
show_nat n = digits_loop (suc n) n []

-- `printf ("%d", n)`.
unfoldable pub show_int : ℤ → Text
unfolding show_nat
show_int (pos n) = show_nat n
show_int (negsuc n) = b'-' ∷ show_nat (suc n)

-- The bytes before the first `c`: the text after `s[strcspn (s, "c")] = '\0'`.
unfoldable pub cut_at : ℕ → Text → Text
cut_at c [] = []
cut_at c (d ∷ s) = if d == c then [] else d ∷ cut_at c s

-- `fgets` into `suc n` bytes: the line with its newline, and the input left.
unfoldable pub take_line : ℕ → Text → Text × Text
take_line zero s = ([], s)
take_line (suc n) [] = ([], [])
take_line (suc n) (c ∷ s) =
    let rest = take_line n s in if c == 10 then (c ∷ [], s) else (c ∷ rest.0, rest.1)

-- `fgets`, which fails at the end of the input.
unfoldable pub fgets : ℕ → Text → Option (Text × Text)
unfolding take_line
fgets size [] = none
fgets size (c ∷ s) = some (take_line (size - 1) (c ∷ s))

unfoldable pub skip_delims : (ℕ → Bool) → Text → Text
skip_delims is_delim [] = []
skip_delims is_delim (c ∷ s) = if is_delim c then skip_delims is_delim s else c ∷ s

-- The bytes before the next delimiter, and what follows that.
unfoldable pub split_delim : (ℕ → Bool) → Text → Text × Text
split_delim is_delim [] = ([], [])
split_delim is_delim (c ∷ s) =
    let rest = split_delim is_delim s in if is_delim c then ([], s) else (c ∷ rest.0, rest.1)

unfoldable pub token_at : (ℕ → Bool) → Text → Option (Text × Text)
unfolding split_delim
token_at is_delim [] = none
token_at is_delim (c ∷ s) = some (split_delim is_delim (c ∷ s))

-- `strtok`: the next token, and the text that the next call goes on with.
unfoldable pub strtok : (ℕ → Bool) → Text → Option (Text × Text)
unfolding skip_delims token_at
strtok is_delim s = token_at is_delim (skip_delims is_delim s)
