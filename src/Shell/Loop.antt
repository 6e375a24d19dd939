-- ===== src/Shell/Loop.antt =====
-- The loop of `main` of lab12/task3.c and its end.
use eltex_school.Base.{
  ℕ, zero, suc, ◌≡◌, ◌<◌, ◌≤◌, ◌-◌, refl, some, List, [], ◌∷◌, length, arith, Option-cases, inl,
  inr,
}
use eltex_school.Text.{Text, take_line, fgets, cut_at}
use eltex_school.Shell.{max_cmd_len, Request, read_line, main}

take_line-left : (n : ℕ) (s : Text) → length (take_line n s).1 ≤ length s
unfolding take_line
take_line-left zero s = omega arith
take_line-left (suc n) [] = omega arith
take_line-left (suc n) (c ∷ s) = ground (arith, take_line-left n s)

take_line-less : (n c : ℕ) (s : Text) → length (take_line (suc n) (c ∷ s)).1 < suc (length s)
unfolding take_line
take_line-less n c s = ground (arith, take_line-left n s)

lt_trans_suc : (a b f : ℕ) → a < suc b → suc b < suc f → a < f
lt_trans_suc a b f p q = omega arith

main-steps :
    (fuel : ℕ) (stdin line rest : Text) (rs : List Request)
    → fgets max_cmd_len stdin ≡ some (line, rest)
    → main fuel rest ≡ some rs
    → (out : List Request) × (main (suc fuel) stdin ≡ some out)
unfolding main
main-steps fuel stdin line rest rs e h = elim (Option-cases (read_line (cut_at b'\n' line))) [
  | inl q ↦ ([], rw (e, q, main) refl)
  | inr (r, q) ↦ (r ∷ rs, rw (e, q, h, main) refl)
]

-- On every input the shell ends at the latest with the input: fuel above its length, one round for
-- each line, is enough.
pub main_ends :
    (fuel : ℕ) (stdin : Text)
    → length stdin < fuel
    → (out : List Request) × (main fuel stdin ≡ some out)
unfolding main fgets
main_ends zero stdin h = elim h [ ]
main_ends (suc fuel) [] h = ([], refl)
main_ends (suc fuel) (c ∷ s) h =
    let line = take_line (max_cmd_len - 1) (c ∷ s) in
    let less : length line.1 < suc (length s) = take_line-less 1022 c s in
    let (rs, rest) = main_ends fuel line.1 (lt_trans_suc (length line.1) (length s) fuel less h) in
    main-steps fuel (c ∷ s) line.0 line.1 rs refl rest
