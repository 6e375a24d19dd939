-- ===== src/Bits/Printed.antt =====
-- The digits that are printed, and the number that they are read back as.
use eltex_school.Base.{
  ℕ, zero, suc, ◌+◌, ◌-◌, ◌*◌, ◌/◌, ◌%◌, ◌^◌, ◌≡◌, ◌<◌, refl, ap, sym, ◌∙◌, Bool, ◌&&◌, ◌||◌, ◌⊎◌,
  ltb, [], ◌∷◌, ◌++◌, ◌==◌, if◌then◌else◌, arith, Bool-cases, inl, inr,
}
use native.Mathlib.Nat.{div-div-eq-div-mul, pow-suc}
use eltex_school.Text.{Text}
use eltex_school.Bits.{bit_at, spaced, print_from, print_binary, count_below, count_ones}

abbrev pub is_digit : ℕ → Bool
is_digit c = (c == b'0') || (c == b'1')

-- The binary number that a text shows behind digits of the value `acc`; other bytes are passed over.
unfoldable pub value_of : (acc : ℕ) → Text → ℕ
value_of acc [] = acc
value_of acc (c ∷ t) =
    let here = value_of acc t in
    let next = value_of (2 * acc + (c - b'0')) t in if is_digit c then next else here

-- How many digits of a text are 1.
unfoldable pub ones_in : Text → ℕ
ones_in [] = 0
ones_in (c ∷ t) = if c == b'1' then suc (ones_in t) else ones_in t

bit_at-binary : (n i : ℕ) → (bit_at n i ≡ 0) ⊎ (bit_at n i ≡ 1)
bit_at-binary n i = elim (Bool-cases (n / 2 ^ i % 2 == 0)) [
  | inl e ↦ inl (ground (arith, e))
  | inr e ↦ inr (ground (arith, e))
]

halved : (n i : ℕ) → n / 2 ^ suc i ≡ n / 2 ^ i / 2
halved n i = ap (λ m. n / m) (pow-suc 2 i) ∙ sym (div-div-eq-div-mul n (2 ^ i) 2)

-- A digit that is put behind those of `n` above it.
next_bit : (n i : ℕ) → 2 * (n / 2 ^ suc i) + bit_at n i ≡ n / 2 ^ i
next_bit n i = rw (halved n i) (omega arith)

value_of-digit :
    (b acc : ℕ) (t : Text)
    → (b ≡ 0) ⊎ (b ≡ 1)
    → value_of acc ((b'0' + b) ∷ t) ≡ value_of (2 * acc + b) t
unfolding value_of
value_of-digit b acc t (inl e) = rw e refl
value_of-digit b acc t (inr e) = rw e refl

value_of-spaced : (acc i : ℕ) (t : Text) → value_of acc (spaced i t) ≡ value_of acc t
unfolding value_of
value_of-spaced acc i t = elim (Bool-cases ((i % 8 == 0) && ltb 0 i)) [
  | inl e ↦ rw e refl
  | inr e ↦ rw e refl
]

value_of-line : (acc : ℕ) (t : Text) → value_of acc (t ++ b'\n' ∷ []) ≡ value_of acc t
unfolding value_of
value_of-line acc [] = refl
value_of-line acc (c ∷ t) =
    let here = value_of-line acc t in
    let next = value_of-line (2 * acc + (c - b'0')) t in rw (here, next) refl

value_of-print_from : (n k : ℕ) → value_of (n / 2 ^ k) (print_from n k) ≡ n
unfolding print_from
value_of-print_from n zero = unfold value_of in ground arith
value_of-print_from n (suc i) =
    value_of-digit (bit_at n i) (n / 2 ^ suc i) (spaced i (print_from n i)) (bit_at-binary n i)
    ∙ ap (λ acc. value_of acc (spaced i (print_from n i))) (next_bit n i)
    ∙ value_of-spaced (n / 2 ^ i) i (print_from n i)
    ∙ value_of-print_from n i

ones_in-spaced : (i : ℕ) (t : Text) → ones_in (spaced i t) ≡ ones_in t
unfolding ones_in
ones_in-spaced i t = elim (Bool-cases ((i % 8 == 0) && ltb 0 i)) [
  | inl e ↦ rw e refl
  | inr e ↦ rw e refl
]

ones_in-line : (t : Text) → ones_in (t ++ b'\n' ∷ []) ≡ ones_in t
unfolding ones_in
ones_in-line [] = refl
ones_in-line (c ∷ t) = rw (ones_in-line t) refl

ones_in-print_from : (n k : ℕ) → ones_in (print_from n k) ≡ count_below n k
unfolding print_from count_below ones_in
ones_in-print_from n zero = refl
ones_in-print_from n (suc i) =
    let same = ones_in-spaced i (print_from n i) ∙ ones_in-print_from n i in
    elim (bit_at-binary n i) [ inl e ↦ rw (e, same) refl | inr e ↦ rw (e, same) (omega arith) ]

-- The digits that lab1/task1.c prints for a number of 32 bits, read back as a binary number, are
-- the number, and as many of them are 1 as lab1/task3.c counts.
pub print_binary_lem :
    (n : ℕ)
    → n < 2 ^ 32
    → (value_of 0 (print_binary n) ≡ n) × (ones_in (print_binary n) ≡ count_ones n)
unfolding print_binary count_ones
print_binary_lem n fits =
    let high : n / 2 ^ 32 ≡ 0 = omega (arith, fits) in
    (
      value_of-line 0 (print_from n 32)
          ∙ ap (λ acc. value_of acc (print_from n 32)) (sym high)
          ∙ value_of-print_from n 32,
      ones_in-line (print_from n 32) ∙ ones_in-print_from n 32,
    )
