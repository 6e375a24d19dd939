-- ===== src/Echo/Checksum/Verify.antt =====
-- The checksum of a buffer that holds its own checksum.
use eltex_school.Base.{
  ℕ, ◌+◌, ◌-◌, ◌*◌, ◌/◌, ◌%◌, ◌^◌, ◌≤◌, ◌<◌, ◌≡◌, List, [], ◌∷◌, ◌++◌, arith, length, length-append,
}
use eltex_school.Echo.Checksum.{sum_words, fold_carries, checksum}
use native.Mathlib.Nat.{zero-add}
use native.Mathlib.Decide.{dec_lt}
use eltex_school.Echo.Checksum.Fold.{Folded, fold_carries-Folded}

abbrev pub IsBytes : List ℕ → Type 0
IsBytes [] = Unit {0}
IsBytes (b ∷ buf) = (b < 256) × IsBytes buf

-- The sum of the words, unbounded.
unfoldable pub total_words : List ℕ → ℕ
total_words [] = 0
total_words (a ∷ []) = a
total_words (a ∷ b ∷ buf) = a + 256 * b + total_words buf

pub total_words-le : (buf : List ℕ) → IsBytes buf → 2 * total_words buf ≤ 65535 * (length buf + 1)
unfolding total_words
total_words-le [] h = omega arith
total_words-le (a ∷ []) h = omega arith
total_words-le (a ∷ b ∷ buf) (ha, (hb, h)) = omega (arith, total_words-le buf h)

pub sum_words-total_words :
    (sum : ℕ) (buf : List ℕ)
    → sum + total_words buf < 2 ^ 32
    → sum_words sum buf ≡ sum + total_words buf
unfolding sum_words total_words
sum_words-total_words sum [] h = omega arith
sum_words-total_words sum (a ∷ []) h = omega arith
sum_words-total_words sum (a ∷ b ∷ buf) h =
    omega (arith, sum_words-total_words ((sum + (a + 256 * b)) % 2 ^ 32) buf)

total_words-append :
    (pre post : List ℕ)
    → length pre % 2 ≡ 0
    → total_words (pre ++ post) ≡ total_words pre + total_words post
unfolding total_words
total_words-append [] post h = omega arith
total_words-append (a ∷ []) post h = absurd (omega arith)
total_words-append (a ∷ b ∷ pre) post h = omega (arith, total_words-append pre post)

-- `checksum` is the complement of the folded sum.
checksum-total_words :
    (buf : List ℕ)
    → total_words buf < 2 ^ 32
    → (t : ℕ) × Folded (total_words buf) t × (checksum buf ≡ 65535 - t)
unfolding checksum
checksum-total_words buf h =
    let f = fold_carries-Folded 1 (total_words buf) h in
    (
      fold_carries 3 (total_words buf),
      f,
      rw (sum_words-total_words 0 buf (omega arith), zero-add) (omega (arith, f.fits)),
    )

-- Adding the complement of the folded sum gives a sum that folds to 65535.
checksum_full :
    (s t c s' t' : ℕ) → Folded s t → c ≡ 65535 - t → Folded s' t' → s' ≡ s + c → t' ≡ 65535
checksum_full s t c s' t' f e f' q = elim (dec_lt 0 s') [
  | yes p ↦ omega (arith, f.fits, f.same, f'.fits, f'.same, f'.positive p)
  | no p ↦ omega (arith, f.zero (omega arith))
]

module _ (pre post : List ℕ) (even : length pre % 2 ≡ 0) where
  total_words-field :
      (a b : ℕ)
      → total_words (pre ++ a ∷ b ∷ post) ≡ total_words pre + (a + 256 * b) + total_words post
  unfolding total_words
  total_words-field a b = omega (arith, total_words-append pre (a ∷ b ∷ post) even)

  length-field : (a b : ℕ) → length (pre ++ a ∷ b ∷ post) ≡ length pre + length post + 2
  length-field a b = omega (arith, length-append pre (a ∷ b ∷ post))

  -- Over up to 131000 bytes: computed with the field zero and stored at an even offset, low byte
  -- first, the checksum makes the checksum of the whole buffer zero.
  pub checksum_verifies :
      IsBytes (pre ++ 0 ∷ 0 ∷ post)
      → length (pre ++ 0 ∷ 0 ∷ post) ≤ 131000
      → let c = checksum (pre ++ 0 ∷ 0 ∷ post) in checksum (pre ++ (c % 256) ∷ (c / 256) ∷ post) ≡ 0
  checksum_verifies bytes short =
      let zeroed = pre ++ 0 ∷ 0 ∷ post in
      let c = checksum zeroed in
      let small = total_words-le zeroed bytes in
      let (t, f, e) = checksum-total_words zeroed (omega (arith, small)) in
      let lt : c < 2 ^ 16 = omega (arith, e) in
      let sum = total_words-field (c % 256) (c / 256) in
      let (t', f', e') =
        checksum-total_words (pre ++ (c % 256) ∷ (c / 256) ∷ post)
          (omega (arith, sum, total_words-field 0 0, small, lt)) in
      let full : t' ≡ 65535 =
        checksum_full (total_words zeroed) t c _ t' f e f'
          (omega (arith, sum, total_words-field 0 0, lt)) in
      omega (arith, e', full)
