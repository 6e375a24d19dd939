-- ===== src/Echo/Checksum/Fold.antt =====
-- The carry loop of `checksum`.
use eltex_school.Base.{ℕ, zero, suc, ◌+◌, ◌/◌, ◌%◌, ◌^◌, ◌≤◌, ◌<◌, ◌≡◌, refl, arith}
use native.Mathlib.Decide.{dec_lt}
use eltex_school.Echo.Checksum.{fold_carries}

fold_carries_small : (k s : ℕ) → s < 2 ^ 16 → fold_carries k s ≡ s
unfolding fold_carries
fold_carries_small zero s h = refl
fold_carries_small (suc k) s h = ground arith

fold_carries_large :
    (k s : ℕ) → 2 ^ 16 ≤ s → fold_carries (suc k) s ≡ fold_carries k (s % 2 ^ 16 + s / 2 ^ 16)
unfolding fold_carries
fold_carries_large k s h = ground arith

-- What the loop leaves of `s`.
pub record Folded (s t : ℕ) : Type 0 where
  pub fits : t < 2 ^ 16
  pub same : t % 65535 ≡ s % 65535
  pub positive : 0 < s → 0 < t
  pub zero : s ≡ 0 → t ≡ 0

once : (k s : ℕ) → s ≤ 131070 → Folded s (fold_carries (suc k) s)
once k s h = elim (dec_lt s (2 ^ 16)) [
  | yes small ↦
      rw (fold_carries_small (suc k) s small)
        (record { fits = small; same = refl; positive = λ p. p; zero = λ q. q })
  | no large ↦ rw (fold_carries_large k s (omega arith)) (
      rw (fold_carries_small k (s % 2 ^ 16 + s / 2 ^ 16) (omega arith)) (record {
        fits = omega arith;
        same = omega arith;
        positive = λ p. omega arith;
        zero = λ q. absurd (omega arith);
      }))
]

-- From a 32-bit sum two rounds suffice, whatever fuel is left.
pub fold_carries-Folded : (k s : ℕ) → s < 2 ^ 32 → Folded s (fold_carries (suc (suc k)) s)
fold_carries-Folded k s h = elim (dec_lt s (2 ^ 16)) [
  | yes small ↦
      rw (fold_carries_small (suc (suc k)) s small)
        (record { fits = small; same = refl; positive = λ p. p; zero = λ q. q })
  | no large ↦
      let f = once k (s % 2 ^ 16 + s / 2 ^ 16) (omega arith) in
      rw (fold_carries_large (suc k) s (omega arith)) (record {
        fits = f.fits;
        same = omega (arith, f.same);
        positive = λ p. f.positive (omega arith);
        zero = λ q. absurd (omega arith);
      })
]
