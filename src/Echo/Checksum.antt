-- ===== src/Echo/Checksum.antt =====
-- `checksum` of finalTask1/server.c and of finalTask1/client.c, over the bytes of a buffer.
pub mod Fold
pub mod Verify
use eltex_school.Base.{
  ℕ, zero, suc, ◌+◌, ◌-◌, ◌*◌, ◌/◌, ◌%◌, ◌^◌, List, [], ◌∷◌, if◌then◌else◌, ◌==◌,
}

-- The first two loops: the sum of the 16-bit words, a last odd byte counting as a word.
unfoldable pub sum_words : ℕ → List ℕ → ℕ
sum_words sum [] = sum
sum_words sum (a ∷ []) = (sum + a) % 2 ^ 32
sum_words sum (a ∷ b ∷ buf) = sum_words ((sum + (a + 256 * b)) % 2 ^ 32) buf

-- `while (sum >> 16) sum = (sum & 0xffff) + (sum >> 16)`, on fuel.
unfoldable pub fold_carries : ℕ → ℕ → ℕ
fold_carries zero sum = sum
fold_carries (suc k) sum =
    let more = fold_carries k (sum % 2 ^ 16 + sum / 2 ^ 16) in
    if sum / 2 ^ 16 == 0 then sum else more

-- `(uint16_t) (~sum)`.
unfoldable pub checksum : List ℕ → ℕ
unfolding sum_words fold_carries
checksum buf = 2 ^ 16 - 1 - fold_carries 3 (sum_words 0 buf) % 2 ^ 16
