-- ===== src/Chat/Users.antt =====
-- From the slots of the clients to the window of the users: `user_list` is written at registration
-- and taken apart in `update_user_list`.
use eltex_school.Base.{
  ℕ, zero, suc, ◌-◌, ◌<◌, ◌≡◌, refl, sym, subst, ◌∙◌, true, false, List, [], ◌∷◌, ◌++◌, arith, ltb,
  if◌then◌else◌, length, take, length-append, Bool-cases, inl, inr,
}
use mathlib.Core.List.{append_assoc, append-nil}
use eltex_school.Text.{Text, skip_delims, split_delim, strtok, token_at}
use eltex_school.Chat.{Client, list_users}
use eltex_school.Chat.Screen.{is_comma, user_rows, update_user_list}

-- The names of the active clients, in the order of their slots.
unfoldable pub active_names : List Client → List Text
active_names [] = []
active_names (c ∷ cs) = let rest = active_names cs in if c.active then c.name ∷ rest else rest

abbrev pub NoComma : Text → Type 0
NoComma [] = Unit {0}
NoComma (c ∷ s) = (is_comma c ≡ false) × NoComma s

-- Names that are not empty and hold no comma.
abbrev pub AllPlain : List Text → Type 0
AllPlain [] = Unit {0}
AllPlain (x ∷ xs) = ((0 < length x) × NoComma x) × AllPlain xs

-- What follows a name in the list, and the list from a name on.
abbrev pub with_commas : List Text → Text
with_commas [] = []
with_commas (x ∷ xs) = b',' ∷ x ++ with_commas xs

abbrev pub joined : List Text → Text
joined [] = []
joined (x ∷ xs) = x ++ with_commas xs

list_users-append :
    (temp : Text) (cs : List Client)
    → 0 < length temp
    → list_users temp cs ≡ temp ++ with_commas (active_names cs)
unfolding list_users active_names
list_users-append temp [] h = sym (append-nil temp)
list_users-append temp (c ∷ cs) h =
    let comma : ltb 0 (length temp) ≡ true = ground (arith, h) in
    elim (Bool-cases c.active) [
      | inr off ↦ rw off (list_users-append temp cs h)
      | inl on ↦
          let grown : 0 < length ((temp ++ b',' ∷ []) ++ c.name) =
            omega (
              arith,
              h,
              length-append temp (b',' ∷ []),
              length-append (temp ++ b',' ∷ []) c.name,
            ) in
          rw (on, comma, list_users-append ((temp ++ b',' ∷ []) ++ c.name) cs grown)
            (append_assoc (temp ++ b',' ∷ []) c.name (with_commas (active_names cs))
              ∙ append_assoc temp (b',' ∷ []) (c.name ++ with_commas (active_names cs)))
    ]

list_users-joined :
    (cs : List Client) → AllPlain (active_names cs) → list_users [] cs ≡ joined (active_names cs)
unfolding list_users active_names
list_users-joined [] p = refl
list_users-joined (c ∷ cs) p = elim (Bool-cases c.active) [
  | inr off ↦
      let q =
        subst (λ b. AllPlain (if b then c.name ∷ active_names cs else active_names cs)) off p in
      rw off (list_users-joined cs q)
  | inl on ↦
      let q =
        subst (λ b. AllPlain (if b then c.name ∷ active_names cs else active_names cs)) on p in
      rw on (list_users-append c.name cs q.0.0)
]

split_delim-joined :
    (x : Text) (xs : List Text)
    → NoComma x
    → split_delim is_comma (x ++ with_commas xs) ≡ (x, joined xs)
unfolding split_delim
split_delim-joined [] [] p = refl
split_delim-joined [] (y ∷ ys) p = refl
split_delim-joined (c ∷ x) xs p = rw (p.0, split_delim-joined x xs p.1) refl

user_rows-joined : (n : ℕ) (xs : List Text) → AllPlain xs → user_rows n (joined xs) ≡ take n xs
unfolding user_rows strtok skip_delims token_at
user_rows-joined zero xs p = refl
user_rows-joined (suc n) [] p = refl
user_rows-joined (suc n) ([] ∷ xs) p = elim p.0.0 [ ]
user_rows-joined (suc n) ((c ∷ x) ∷ xs) p =
    rw
      (
        p.0.1.0,
        split_delim-joined (c ∷ x) xs p.0.1,
        user_rows-joined n xs p.1,
        user_rows,
        strtok,
        token_at,
        skip_delims,
      )
      refl

-- If the names of the active clients are not empty and hold no comma, the users' window shows them
-- in the order of their slots, as many as it has lines for.
pub users_shown :
    (maxy : ℕ) (cs : List Client)
    → AllPlain (active_names cs)
    → update_user_list maxy (list_users [] cs) ≡ take (maxy - 3) (active_names cs)
unfolding update_user_list
users_shown maxy cs p =
    rw (list_users-joined cs p) (user_rows-joined (maxy - 3) (active_names cs) p)
