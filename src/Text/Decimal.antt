-- ===== src/Text/Decimal.antt =====
-- Printing a number in decimal and reading it back.
use eltex_school.Base.{
  ℕ, suc, zero, ◌+◌, ◌/◌, ◌%◌, ◌<◌, ◌≡◌, refl, some, [], ◌∷◌, ◌++◌, arith, true, false, Bool-cases,
  inl, inr, ltb,
}
use eltex_school.Base.Int.{ℤ, pos, negsuc}
use eltex_school.Text.{
  Text, is_digit, skip_space, read_digits, read_number, read_int, scan_int, signed, digits_loop,
  show_nat, show_int,
}

-- The text ends here, or goes on with a byte that is no digit.
abbrev pub NoDigitAhead : Text → Type 0
NoDigitAhead [] = Unit {0}
NoDigitAhead (c ∷ s) = is_digit c ≡ false

read_digits_stop : (acc : ℕ) (s : Text) → NoDigitAhead s → read_digits acc s ≡ (acc, s)
unfolding read_digits
read_digits_stop acc [] h = refl
read_digits_stop acc (c ∷ s) h = ground arith

read_digits-digits_loop :
    (k n : ℕ) (s : Text) → n < k → read_digits 0 (digits_loop k n s) ≡ read_digits n s
unfolding read_digits digits_loop
read_digits-digits_loop zero n s h = elim h [ ]
read_digits-digits_loop (suc k) n s h =
    ground (arith, read_digits-digits_loop k (n / 10) ((48 + n % 10) ∷ s))

digits_loop-append : (k n : ℕ) (s t : Text) → digits_loop k n s ++ t ≡ digits_loop k n (s ++ t)
unfolding digits_loop
digits_loop-append zero n s t = refl
digits_loop-append (suc k) n s t =
    ground (arith, digits_loop-append k (n / 10) ((48 + n % 10) ∷ s) t)

-- The text begins with a digit.
abbrev pub DigitAhead : Text → Type 0
DigitAhead s = (c : ℕ) × (r : Text) × (s ≡ c ∷ r) × (is_digit c ≡ true)

digits_loop-DigitAhead : (k n : ℕ) (s : Text) → n < k → DigitAhead (digits_loop k n s)
unfolding digits_loop
digits_loop-DigitAhead zero n s h = elim h [ ]
digits_loop-DigitAhead (suc k) n s h = elim (Bool-cases (ltb n 10)) [
  | inl small ↦ (48 + n, s, ground arith, ground arith)
  | inr large ↦
      let (c, r, e, d) = digits_loop-DigitAhead k (n / 10) ((48 + n % 10) ∷ s) (ground arith) in
      (c, r, ground arith, d)
]

read_number-DigitAhead :
    (s : Text) → DigitAhead s → read_number s ≡ (some (read_digits 0 s).0, (read_digits 0 s).1)
unfolding read_number
read_number-DigitAhead [] (c, r, e, d) = ground arith
read_number-DigitAhead (x ∷ s) (c, r, e, d) = ground arith

read_number-show_nat :
    (n : ℕ) (s : Text) → NoDigitAhead s → read_number (show_nat n ++ s) ≡ (some n, s)
unfolding show_nat
read_number-show_nat n s h = ground (
  arith,
  digits_loop-append (suc n) n [] s,
  digits_loop-DigitAhead (suc n) n s,
  read_number-DigitAhead (digits_loop (suc n) n s),
  read_digits-digits_loop (suc n) n s,
  read_digits_stop n s,
)

-- A digit is no space and no sign.
scan_int-DigitAhead : (s : Text) → DigitAhead s → scan_int s ≡ signed pos (read_number s)
unfolding scan_int read_int skip_space
scan_int-DigitAhead [] (c, r, e, d) = ground arith
scan_int-DigitAhead (x ∷ s) (c, r, e, d) = ground arith

show_nat-append : (n : ℕ) (s : Text) → show_nat n ++ s ≡ digits_loop (suc n) n s
unfolding show_nat
show_nat-append n s = digits_loop-append (suc n) n [] s

-- What `%d` prints, `%d` reads back, and leaves what follows.
pub scan_int-show_int :
    (z : ℤ) (s : Text) → NoDigitAhead s → scan_int (show_int z ++ s) ≡ (some z, s)
unfolding show_int
scan_int-show_int (pos n) s h = ground (
  arith,
  show_nat-append n s,
  digits_loop-DigitAhead (suc n) n s,
  scan_int-DigitAhead (show_nat n ++ s),
  read_number-show_nat n s,
)
scan_int-show_int (negsuc n) s h =
    unfold scan_int read_int skip_space in ground (arith, read_number-show_nat (suc n) s)
