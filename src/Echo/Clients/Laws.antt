-- ===== src/Echo/Clients/Laws.antt =====
-- The client table as a finite map from addresses to counters.
use eltex_school.Base.{
  ℕ, suc, ◌+◌, ◌<◌, ◌≡◌, refl, Bool, true, false, ◌&&◌, Option, none, some, [], ◌∷◌, ◌++◌, arith,
  ◌==◌, if◌then◌else◌, length, Bool-cases, inl, inr,
}
use eltex_school.Echo.Clients.{
  ClientEntry, Clients, is_client, find_client, remove_client, bump, counter_at,
}

-- The counter of an address, `none` for an address that is no client.
unfoldable pub counter_of : ℕ → ℕ → Clients → Option ℕ
counter_of ip port [] = none
counter_of ip port (c ∷ cs) = if is_client ip port c then some c.counter else counter_of ip port cs

abbrev pub same_key : ℕ → ℕ → ℕ → ℕ → Bool
same_key ip port ip' port' = ip == ip' && port == port'

-- No address has two entries.
abbrev pub IsUnique : Clients → Type 0
IsUnique [] = Unit {0}
IsUnique (c ∷ cs) = (counter_of c.ip c.port cs ≡ none) × IsUnique cs

-- Entry `d` is the one that the address leads to.
pub record Found (ip port : ℕ) (cs : Clients) (d : ℕ) : Type 0 where
  pub within : d < length cs
  pub counter : counter_of ip port cs ≡ some (counter_at d cs)
  pub bumped :
      (ip' port' : ℕ)
      → counter_of ip' port' (bump d cs) ≡ (
          if same_key ip port ip' port'
          then some (counter_at d cs + 1)
          else counter_of ip' port' cs)

Found-here :
    (ip port : ℕ) (c : ClientEntry) (cs : Clients)
    → is_client ip port c ≡ true
    → Found ip port (c ∷ cs) 0
unfolding counter_of counter_at bump
Found-here ip port c cs h = record {
  within = omega arith;
  counter = ground arith;
  bumped = λ ip' port'. ground arith;
}

Found-later :
    (ip port d : ℕ) (c : ClientEntry) (cs : Clients)
    → is_client ip port c ≡ false
    → Found ip port cs d
    → Found ip port (c ∷ cs) (suc d)
unfolding counter_of counter_at bump
Found-later ip port d c cs h f = record {
  within = omega (arith, f.within);
  counter = rw h f.counter;
  bumped = λ ip' port'. ground (arith, f.bumped ip' port');
}

pub find_client-some :
    (j ip port i : ℕ) (cs : Clients)
    → find_client j ip port cs ≡ some i
    → (d : ℕ) × (i ≡ j + d) × Found ip port cs d
unfolding find_client
find_client-some j ip port i [] h = ground arith
find_client-some j ip port i (c ∷ cs) h = elim (Bool-cases (is_client ip port c)) [
  | inl hit ↦ (0, ground arith, Found-here ip port c cs hit)
  | inr miss ↦
      let (d, q, f) = find_client-some (j + 1) ip port i cs (rw miss at h) in
      (suc d, omega arith, Found-later ip port d c cs miss f)
]

pub find_client-none :
    (j ip port : ℕ) (cs : Clients) → find_client j ip port cs ≡ none → counter_of ip port cs ≡ none
unfolding find_client counter_of
find_client-none j ip port [] h = refl
find_client-none j ip port (c ∷ cs) h = ground (arith, find_client-none (j + 1) ip port cs)

abbrev pub new_entry : ℕ → ℕ → ClientEntry
new_entry ip port = record { ip = ip; port = port; counter = 0 }

-- The entry that `add_client` appends.
pub added-Found :
    (ip port : ℕ) (cs : Clients)
    → counter_of ip port cs ≡ none
    → Found ip port (cs ++ new_entry ip port ∷ []) (length cs)
      × (counter_at (length cs) (cs ++ new_entry ip port ∷ []) ≡ 0)
unfolding counter_of counter_at
added-Found ip port [] h = (Found-here ip port (new_entry ip port) [] (ground arith), refl)
added-Found ip port (c ∷ cs) h = elim (Bool-cases (is_client ip port c)) [
  | inl hit ↦ absurd (ground arith)
  | inr miss ↦
      let (f, z) = added-Found ip port cs (rw miss at h) in
      (Found-later ip port (length cs) c _ miss f, z)
]

pub counter_of-add :
    (ip port ip' port' : ℕ) (cs : Clients)
    → same_key ip port ip' port' ≡ false
    → counter_of ip' port' (cs ++ new_entry ip port ∷ []) ≡ counter_of ip' port' cs
unfolding counter_of
counter_of-add ip port ip' port' [] h = ground arith
counter_of-add ip port ip' port' (c ∷ cs) h = ground (arith, counter_of-add ip port ip' port' cs h)

pub counter_of-remove :
    (ip port ip' port' : ℕ) (cs : Clients)
    → IsUnique cs
    → counter_of ip' port' (remove_client ip port cs)
      ≡ (if same_key ip port ip' port' then none else counter_of ip' port' cs)
unfolding counter_of remove_client
counter_of-remove ip port ip' port' [] u = ground arith
counter_of-remove ip port ip' port' (c ∷ cs) u =
    ground (arith, u.0, counter_of-remove ip port ip' port' cs u.1)
