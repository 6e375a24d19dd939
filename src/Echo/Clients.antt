-- ===== src/Echo/Clients.antt =====
-- The client table of finalTask1/server.c: `clients[0 .. num_clients)`, of at most 100 entries. A
-- pointer into the table is an index.
pub mod Laws
pub mod Valid
use eltex_school.Base.{
  ℕ, suc, zero, ◌+◌, Bool, ◌&&◌, Option, none, some, List, [], ◌∷◌, ◌++◌, leb, ◌==◌, if◌then◌else◌,
  length,
}

abbrev pub max_clients : ℕ
max_clients = 100

pub record ClientEntry : Type 0 where
  pub ip : ℕ
  pub port : ℕ
  pub counter : ℕ

abbrev pub Clients : Type 0
Clients = List ClientEntry

abbrev pub is_client : ℕ → ℕ → ClientEntry → Bool
is_client ip port c = c.ip == ip && c.port == port

unfoldable pub remove_client : ℕ → ℕ → Clients → Clients
remove_client ip port [] = []
remove_client ip port (c ∷ cs) = if is_client ip port c then cs else c ∷ remove_client ip port cs

unfoldable pub find_client : ℕ → ℕ → ℕ → Clients → Option ℕ
find_client i ip port [] = none
find_client i ip port (c ∷ cs) =
    if is_client ip port c then some i else find_client (i + 1) ip port cs

unfoldable pub add_client : ℕ → ℕ → Clients → Option (ℕ × Clients)
add_client ip port cs =
    if leb max_clients (length cs)
    then none
    else some (length cs, cs ++ record { ip = ip; port = port; counter = 0 } ∷ [])

-- `entry->counter++`; the counter is taken not to reach 2^31.
unfoldable pub bump : ℕ → Clients → Clients
bump i [] = []
bump zero (c ∷ cs) = record c { counter = c.counter + 1 } ∷ cs
bump (suc i) (c ∷ cs) = c ∷ bump i cs

unfoldable pub counter_at : ℕ → Clients → ℕ
counter_at i [] = 0
counter_at zero (c ∷ cs) = c.counter
counter_at (suc i) (c ∷ cs) = counter_at i cs

-- `find_client`, and `add_client` where it finds none.
unfoldable pub find_or_add : ℕ → ℕ → Clients → Option (ℕ × Clients)
find_or_add ip port cs = elim (find_client 0 ip port cs) [
  | some i ↦ some (i, cs)
  | none ↦ add_client ip port cs
]
