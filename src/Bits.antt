-- ===== src/Bits.antt =====
-- lab1/task1.c and lab1/task3.c: the binary digits of an unsigned number of 32 bits.
pub mod Printed
mod Tests
use eltex_school.Base.{
  ℕ, zero, suc, ◌+◌, ◌/◌, ◌%◌, ◌^◌, Bool, Option, none, some, List, [], ◌∷◌, ◌++◌, ◌==◌, ◌&&◌, ltb,
  if◌then◌else◌,
}
use eltex_school.Text.{Text}

-- `(n >> i) & 1`
abbrev pub bit_at : (n i : ℕ) → ℕ
bit_at n i = n / 2 ^ i % 2

-- What stands behind the digit `i`.
abbrev pub spaced : (i : ℕ) → Text → Text
spaced i rest = if (i % 8 == 0) && ltb 0 i then b' ' ∷ rest else rest

-- The rounds of the loop from `i = k - 1` down.
unfoldable pub print_from : (n k : ℕ) → Text
print_from n zero = []
print_from n (suc i) = (b'0' + bit_at n i) ∷ spaced i (print_from n i)

unfoldable pub print_binary : (n : ℕ) → Text
unfolding print_from
print_binary n = print_from n 32 ++ b'\n' ∷ []

-- The rounds of the loop of lab1/task3.c for the `i` below `k`.
unfoldable pub count_below : (num k : ℕ) → ℕ
count_below num zero = 0
count_below num (suc i) =
    let count = count_below num i in if bit_at num i == 1 then count + 1 else count

unfoldable pub count_ones : (num : ℕ) → ℕ
unfolding count_below
count_ones num = count_below num 32
