-- ===== src/Text/Tokens.antt =====
-- Where `strtok` splits a text.
use eltex_school.Base.{ℕ, ◌≡◌, ◌<◌, refl, Bool, true, false, some, [], ◌∷◌, ◌++◌, length}
use eltex_school.Text.{Text, skip_delims, split_delim, token_at, strtok}

-- No byte of the text is one of these.
abbrev pub Lacks : (stops : ℕ → Bool) → Text → Type 0
Lacks stops [] = Unit {0}
Lacks stops (c ∷ s) = (stops c ≡ false) × Lacks stops s

pub Lacks-append :
    (stops : ℕ → Bool) (s t : Text) → Lacks stops s → Lacks stops t → Lacks stops (s ++ t)
Lacks-append stops [] t h k = k
Lacks-append stops (c ∷ s) t h k = (h.0, Lacks-append stops s t h.1 k)

pub Lacks-weaken :
    (p q : ℕ → Bool) (s : Text) → ((c : ℕ) → p c ≡ false → q c ≡ false) → Lacks p s → Lacks q s
Lacks-weaken p q [] w h = tt
Lacks-weaken p q (c ∷ s) w h = (w c h.0, Lacks-weaken p q s w h.1)

module _ (d : ℕ → Bool) where
  pub split_delim-append :
      (x : Text) (e : ℕ) (r : Text) → Lacks d x → d e ≡ true → split_delim d (x ++ e ∷ r) ≡ (x, r)
  unfolding split_delim
  split_delim-append [] e r h q = rw q
  split_delim-append (c ∷ x) e r h q = rw (h.0, split_delim-append x e r h.1 q)

  pub split_delim-whole : (x : Text) → Lacks d x → split_delim d x ≡ (x, [])
  unfolding split_delim
  split_delim-whole [] h = refl
  split_delim-whole (c ∷ x) h = rw (h.0, split_delim-whole x h.1)

  -- A token, a delimiter and the rest.
  pub strtok-append :
      (x : Text) (e : ℕ) (r : Text)
      → Lacks d x
      → 0 < length x
      → d e ≡ true
      → strtok d (x ++ e ∷ r) ≡ some (x, r)
  unfolding strtok skip_delims
  strtok-append [] e r h p q = elim p [ ]
  strtok-append (c ∷ x) e r h p q =
      rw (h.0, split_delim-append (c ∷ x) e r h q, strtok, token_at) refl

  -- A text that is one token.
  pub strtok-whole : (x : Text) → Lacks d x → 0 < length x → strtok d x ≡ some (x, [])
  unfolding strtok skip_delims
  strtok-whole [] h p = elim p [ ]
  strtok-whole (c ∷ x) h p = rw (h.0, split_delim-whole (c ∷ x) h, strtok, token_at) refl
