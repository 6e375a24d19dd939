-- ===== src/Substring/First.antt =====
-- The first occurrence of a text in another.
use eltex_school.Base.{
  ℕ, suc, ◌≡◌, ◌≢◌, ◌≤◌, inl, inr, refl, ap, subst, true, false, Option, none, some, [], ◌∷◌, ◌++◌,
  ◌==◌, length, arith, Bool-cases,
}
use eltex_school.Text.{Text}
use eltex_school.Substring.{advance, is_end, find_from, find_substring}

-- The text begins with the other one exactly if the inner loop comes to the end of that.
advance-end : (s sub : Text) → is_end (advance s sub).1 ≡ true → (post : Text) × (s ≡ sub ++ post)
unfolding advance
advance-end [] [] h = ([], refl)
advance-end [] (d ∷ sub) h = absurd (ground (arith, h))
advance-end (c ∷ s) [] h = (c ∷ s, refl)
advance-end (c ∷ s) (d ∷ sub) h = elim (Bool-cases (c == d)) [
  | inl e ↦
      let (post, q) = advance-end s sub (ground (arith, e, h)) in
      let same : c ≡ d = ground (arith, e) in (post, cc (same, q))
  | inr e ↦ absurd (ground (arith, e, h))
]

advance-append : (sub post : Text) → is_end (advance (sub ++ post) sub).1 ≡ true
unfolding advance
advance-append [] [] = refl
advance-append [] (c ∷ post) = refl
advance-append (d ∷ sub) post = ground (arith, advance-append sub post)

-- `sub` stands in `str` behind `pre`, before `post`, and nowhere earlier.
pub record FirstAt (str sub pre post : Text) : Type 0 where
  pub whole : str ≡ pre ++ (sub ++ post)
  pub first : (pre' post' : Text) → str ≡ pre' ++ (sub ++ post') → length pre ≤ length pre'

-- What a search returns.
abbrev pub Found : Text → Text → Option Text → Type 0
Found str sub none = (pre post : Text) → str ≢ pre ++ (sub ++ post)
Found str sub (some r) = (pre : Text) × (post : Text) × (r ≡ sub ++ post) × FirstAt str sub pre post

tail_eq : (c d : ℕ) (s t : Text) → c ∷ s ≡ d ∷ t → s ≡ t
tail_eq c d s t e = cc e

not_first :
    (c d : ℕ) (s sub post : Text)
    → is_end (advance (c ∷ s) (d ∷ sub)).1 ≡ false
    → c ∷ s ≢ (d ∷ sub) ++ post
not_first c d s sub post miss e = absurd (
    ground (
      arith,
      subst (λ t. is_end (advance t (d ∷ sub)).1 ≡ false) e miss,
      advance-append (d ∷ sub) post,
    ))

Found-later :
    (c d : ℕ) (s sub : Text) (o : Option Text)
    → is_end (advance (c ∷ s) (d ∷ sub)).1 ≡ false
    → Found s (d ∷ sub) o
    → Found (c ∷ s) (d ∷ sub) o
Found-later c d s sub none miss f = λ pre post. later pre post
  where
    later : (pre post : Text) → c ∷ s ≢ pre ++ ((d ∷ sub) ++ post)
    later [] post e = not_first c d s sub post miss e
    later (x ∷ pre) post e = f pre post (tail_eq c x s _ e)
Found-later c d s sub (some r) miss (pre, post, q, at) = (
  c ∷ pre,
  post,
  q,
  record { whole = ap (λ t. c ∷ t) at.whole; first = λ pre' post' e. first pre' post' e },
)
  where
    first :
        (pre' post' : Text) → c ∷ s ≡ pre' ++ ((d ∷ sub) ++ post') → suc (length pre) ≤ length pre'
    first [] post' e = absurd (not_first c d s sub post' miss e)
    first (x ∷ pre') post' e =
        omega (arith, at.first pre' post' (tail_eq c x s (pre' ++ ((d ∷ sub) ++ post')) e))

find_from-Found : (s : Text) (d : ℕ) (sub : Text) → Found s (d ∷ sub) (find_from s (d ∷ sub))
unfolding find_from
find_from-Found [] d sub = λ pre post. nowhere pre post
  where
    nowhere : (pre post : Text) → [] ≢ pre ++ ((d ∷ sub) ++ post)
    nowhere [] post e = cc e
    nowhere (x ∷ pre) post e = cc e
find_from-Found (c ∷ s) d sub = elim (Bool-cases (is_end (advance (c ∷ s) (d ∷ sub)).1)) [
  | inl hit ↦
      let (post, q) = advance-end (c ∷ s) (d ∷ sub) hit in
      rw hit ([], post, q, record { whole = q; first = λ pre' post' e. omega arith })
  | inr miss ↦
      rw miss (Found-later c d s sub (find_from s (d ∷ sub)) miss (find_from-Found s d sub))
]

-- For all texts: what is returned is the text from the first occurrence of the substring on, and
-- NULL is returned only if the substring occurs nowhere; the empty one occurs at the start.
pub find_substring_lem : (str sub : Text) → Found str sub (find_substring str sub)
unfolding find_substring
find_substring_lem str [] =
    ([], str, refl, record { whole = refl; first = λ pre' post' e. omega arith })
find_substring_lem str (d ∷ sub) = find_from-Found str d sub
