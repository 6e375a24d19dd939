-- ===== src/Stalls/Sums.antt =====
-- Sums over a list of which one element changes.
use eltex_school.Base.{
  ℕ, zero, suc, ◌+◌, ◌<◌, ◌≤◌, ◌≡◌, refl, ap, List, [], ◌∷◌, arith, length, set, get_or,
}

module _ {ℓ} {A : Type ℓ} where
  abbrev pub sum : (A → ℕ) → List A → ℕ
  sum f [] = 0
  sum f (x ∷ xs) = f x + sum f xs

  pub sum-set :
      (f : A → ℕ) (xs : List A) (i : ℕ) (v d : A)
      → i < length xs
      → sum f (set xs i v) + f (get_or xs i d) ≡ sum f xs + f v
  sum-set f [] i v d h = elim h [ ]
  sum-set f (x ∷ xs) zero v d h = omega arith
  sum-set f (x ∷ xs) (suc i) v d h = omega (arith, sum-set f xs i v d (omega (arith, h)))

  -- A write out of range changes nothing, and a read there gives the default.
  pub beyond :
      (xs : List A) (i : ℕ) (v d : A) → length xs ≤ i → (set xs i v ≡ xs) × (get_or xs i d ≡ d)
  beyond [] i v d h = (refl, refl)
  beyond (x ∷ xs) zero v d h = elim h [ ]
  beyond (x ∷ xs) (suc i) v d h =
      let rest = beyond xs i v d (omega (arith, h)) in (ap (λ ys. x ∷ ys) rest.0, rest.1)

  pub sum-ge : (f : A → ℕ) (xs : List A) (i : ℕ) (d : A) → f d ≡ 0 → f (get_or xs i d) ≤ sum f xs
  sum-ge f [] i d h = omega (arith, h)
  sum-ge f (x ∷ xs) zero d h = omega arith
  sum-ge f (x ∷ xs) (suc i) d h = omega (arith, sum-ge f xs i d h)
