-- ===== src/Text/Scan.antt =====
-- Comparing texts, and what the readers of words and numbers leave.
use eltex_school.Base.{◌≡◌, ◌↔◌, refl, true, [], ◌∷◌, arith}
use eltex_school.Text.{Text, str_eq}

str_eq_refl : (s : Text) → str_eq s s ≡ true
unfolding str_eq
str_eq_refl [] = refl
str_eq_refl (c ∷ s) = ground (arith, str_eq_refl s)

eq_of_str_eq : (s t : Text) → str_eq s t ≡ true → s ≡ t
unfolding str_eq
eq_of_str_eq [] [] h = refl
eq_of_str_eq [] (d ∷ t) h = ground arith
eq_of_str_eq (c ∷ s) [] h = ground arith
eq_of_str_eq (c ∷ s) (d ∷ t) h = ground (arith, eq_of_str_eq s t)

-- The comparison decides equality.
pub str_eq_iff : (s t : Text) → (str_eq s t ≡ true) ↔ (s ≡ t)
str_eq_iff s t = (eq_of_str_eq s t, λ e. rw e (str_eq_refl t))
