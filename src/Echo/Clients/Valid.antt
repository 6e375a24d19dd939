-- ===== src/Echo/Clients/Valid.antt =====
-- The bounds of the client table, and the addresses in it.
use eltex_school.Base.{
  ℕ, suc, zero, ◌≤◌, ◌≡◌, refl, none, some, [], ◌∷◌, ◌++◌, arith, length, length-append, false, ◌∙◌,
  Option-cases, inl, inr,
}
use eltex_school.Echo.Clients.{
  max_clients, Clients, remove_client, bump, find_or_add, find_client, add_client,
}
use eltex_school.Echo.Clients.Laws.{
  counter_of, IsUnique, new_entry, find_client-none, same_key, counter_of-add,
}

pub record IsValid (cs : Clients) : Type 0 where
  pub unique : IsUnique cs
  pub few : length cs ≤ max_clients

none-bump :
    (ip port d : ℕ) (cs : Clients)
    → counter_of ip port cs ≡ none
    → counter_of ip port (bump d cs) ≡ none
unfolding counter_of bump
none-bump ip port d [] h = refl
none-bump ip port zero (c ∷ cs) h = ground arith
none-bump ip port (suc d) (c ∷ cs) h = ground (arith, none-bump ip port d cs)

bump-IsUnique : (d : ℕ) (cs : Clients) → IsUnique cs → IsUnique (bump d cs)
unfolding bump
bump-IsUnique d [] u = tt
bump-IsUnique zero (c ∷ cs) u = u
bump-IsUnique (suc d) (c ∷ cs) u = (none-bump c.ip c.port d cs u.0, bump-IsUnique d cs u.1)

length-bump : (d : ℕ) (cs : Clients) → length (bump d cs) ≡ length cs
unfolding bump
length-bump d [] = refl
length-bump zero (c ∷ cs) = refl
length-bump (suc d) (c ∷ cs) = omega (arith, length-bump d cs)

pub bump-IsValid : (d : ℕ) (cs : Clients) → IsValid cs → IsValid (bump d cs)
bump-IsValid d cs v = record {
  unique = bump-IsUnique d cs v.unique;
  few = omega (arith, length-bump d cs, v.few);
}

none-remove :
    (ip port ip' port' : ℕ) (cs : Clients)
    → counter_of ip port cs ≡ none
    → counter_of ip port (remove_client ip' port' cs) ≡ none
unfolding counter_of remove_client
none-remove ip port ip' port' [] h = refl
none-remove ip port ip' port' (c ∷ cs) h = ground (arith, none-remove ip port ip' port' cs)

remove-IsUnique : (ip port : ℕ) (cs : Clients) → IsUnique cs → IsUnique (remove_client ip port cs)
unfolding remove_client
remove-IsUnique ip port [] u = tt
remove-IsUnique ip port (c ∷ cs) u =
    ground (arith, u, none-remove c.ip c.port ip port cs u.0, remove-IsUnique ip port cs u.1)

length-remove-le : (ip port : ℕ) (cs : Clients) → length (remove_client ip port cs) ≤ length cs
unfolding remove_client
length-remove-le ip port [] = omega arith
length-remove-le ip port (c ∷ cs) = ground (arith, length-remove-le ip port cs)

pub remove-IsValid : (ip port : ℕ) (cs : Clients) → IsValid cs → IsValid (remove_client ip port cs)
remove-IsValid ip port cs v = record {
  unique = remove-IsUnique ip port cs v.unique;
  few = omega (arith, length-remove-le ip port cs, v.few);
}

none-add :
    (ip port ip' port' : ℕ) (cs : Clients)
    → counter_of ip port cs ≡ none
    → same_key ip' port' ip port ≡ false
    → counter_of ip port (cs ++ new_entry ip' port' ∷ []) ≡ none
none-add ip port ip' port' cs h ne = counter_of-add ip' port' ip port cs ne ∙ h

add-IsUnique :
    (ip port : ℕ) (cs : Clients)
    → counter_of ip port cs ≡ none
    → IsUnique cs
    → IsUnique (cs ++ new_entry ip port ∷ [])
unfolding counter_of
add-IsUnique ip port [] h u = (refl, tt)
add-IsUnique ip port (c ∷ cs) h u =
    (none-add c.ip c.port ip port cs u.0 (ground arith), add-IsUnique ip port cs (ground arith) u.1)

-- The table after `find_or_add`.
pub find_or_add-IsValid :
    (ip port i : ℕ) (cs cs' : Clients)
    → IsValid cs
    → find_or_add ip port cs ≡ some (i, cs')
    → IsValid cs'
unfolding find_or_add add_client
find_or_add-IsValid ip port i cs cs' v e = elim (Option-cases (find_client 0 ip port cs)) [
  | inl missing ↦
      let absent = find_client-none 0 ip port cs missing in
      let appended = add-IsUnique ip port cs absent v.unique in
      ground (arith, v.few, appended, length-append cs (new_entry ip port ∷ []))
  | inr (d, found) ↦ ground (arith, v)
]
