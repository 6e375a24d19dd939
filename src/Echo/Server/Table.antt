-- ===== src/Echo/Server/Table.antt =====
-- What the server's loop does to the client table.
use eltex_school.Base.{
  ℕ, ◌+◌, ◌≤◌, ◌<◌, ◌≡◌, refl, Bool, false, ◌&&◌, Option, none, some, List, arith, ◌==◌,
  if◌then◌else◌, length, Option-cases, inl, inr, ◌≢◌, ◌⊎◌, [], ◌∷◌, ◌++◌, drop, ◌-◌,
}
use eltex_school.Text.{codes, starts_with}
use eltex_school.Echo.Packet.{field16, field32}
use eltex_school.Echo.Clients.{
  max_clients, Clients, find_client, find_or_add, add_client, counter_at,
}
use eltex_school.Echo.Clients.Laws.{
  counter_of, same_key, Found, find_client-some, find_client-none, new_entry, added-Found,
  counter_of-add, counter_of-remove,
}
use eltex_school.Echo.Clients.Valid.{IsValid, bump-IsValid, remove-IsValid, find_or_add-IsValid}
use eltex_school.Echo.Server.{Outcome, respond, serve, handle, header_length}

respond-IsValid :
    (rand ip daddr port len : ℕ) (content : List ℕ) (i : ℕ) (cs : Clients)
    → IsValid cs
    → IsValid (respond rand ip daddr port len content i cs).0
unfolding respond
respond-IsValid rand ip daddr port len content i cs v =
    ground (arith, bump-IsValid i cs v, remove-IsValid ip port cs v)

serve-IsValid :
    (rand ip daddr port len : ℕ) (content : List ℕ) (cs : Clients)
    → IsValid cs
    → IsValid (serve rand ip daddr port len content cs).0
unfolding serve
serve-IsValid rand ip daddr port len content cs v = elim (Option-cases (find_or_add ip port cs)) [
  | inl none_left ↦ rw (none_left, serve) v
  | inr ((i, cs'), e) ↦
      rw (e, serve)
        (respond-IsValid rand ip daddr port len content i cs'
          (find_or_add-IsValid ip port i cs cs' v e))
]

-- No datagram, whatever its bytes, makes a valid table overrun its array or repeat an address.
pub handle-IsValid :
    (rand : ℕ) (recv_len : Option ℕ) (buf : List ℕ) (cs : Clients)
    → IsValid cs
    → IsValid (handle rand recv_len buf cs).0
unfolding handle
handle-IsValid rand none buf cs v = v
handle-IsValid rand (some n) buf cs v = ground (
  arith,
  v,
  serve-IsValid rand (field32 buf 12) (field32 buf 16) (field16 buf (header_length buf))
      (field16 buf (header_length buf + 4) - 8) (drop (header_length buf + 8) buf) cs v,
)

-- The message is the text that makes the server forget its sender.
abbrev pub is_shutdown : ℕ → List ℕ → Bool
is_shutdown len content = len == 8 && starts_with content (codes "SHUTDOWN")

-- There is an entry for the sender, or room for one.
abbrev pub HasRoom : ℕ → ℕ → Clients → Type 0
HasRoom ip port cs = (counter_of ip port cs ≢ none) ⊎ (length cs < max_clients)

abbrev pub count_from : Option ℕ → ℕ
count_from none = 0
count_from (some n) = n

pub entry-Found :
    (ip port : ℕ) (cs : Clients)
    → HasRoom ip port cs
    → (i : ℕ) × (cs' : Clients) × (find_or_add ip port cs ≡ some (i, cs'))
      × Found ip port cs' i
      × (counter_at i cs' ≡ count_from (counter_of ip port cs))
      × ((ip' port' : ℕ)
          → same_key ip port ip' port' ≡ false
          → counter_of ip' port' cs' ≡ counter_of ip' port' cs)
unfolding find_or_add
entry-Found ip port cs room = elim (Option-cases (find_client 0 ip port cs)) [
  | inl missing ↦
      let absent = find_client-none 0 ip port cs missing in
      let (f, z) = added-Found ip port cs absent in
      (
        length cs,
        cs ++ new_entry ip port ∷ [],
        unfold add_client in ground (arith, absent, room),
        f,
        rw absent z,
        λ ip' port' ne. counter_of-add ip port ip' port' cs ne,
      )
  | inr (i, found) ↦
      let (d, q, f) = find_client-some 0 ip port i cs found in
      let q' : i ≡ d = omega arith in
      (d, cs, ground arith, f, ground (arith, f.counter), λ ip' port' ne. refl)
]

-- Seen as a map from addresses to counters: a message adds one to its sender's counter, from 0 for
-- a new sender, SHUTDOWN removes the sender, and no other address is touched. The sender must have
-- an entry or find room for one.
pub serve_counters :
    (rand ip daddr port len : ℕ) (content : List ℕ) (cs : Clients)
    → IsValid cs
    → HasRoom ip port cs
    → (ip' port' : ℕ)
    → counter_of ip' port' (serve rand ip daddr port len content cs).0 ≡ (
        if same_key ip port ip' port'
        then (if is_shutdown len content
            then none
            else some (count_from (counter_of ip port cs) + 1))
        else counter_of ip' port' cs)
unfolding serve
serve_counters rand ip daddr port len content cs v room ip' port' =
    let (i, cs', e, f, start, others) = entry-Found ip port cs room in
    let v' = find_or_add-IsValid ip port i cs cs' v e in
    rw (e, serve)
      (unfold respond in
        ground (
          arith,
          start,
          f.bumped ip' port',
          others ip' port',
          counter_of-remove ip port ip' port' cs' v'.unique,
        ))

-- A sender without an entry is turned away when the table is full, and the table stays as it is.
pub serve_full :
    (rand ip daddr port len : ℕ) (content : List ℕ) (cs : Clients)
    → counter_of ip port cs ≡ none
    → max_clients ≤ length cs
    → serve rand ip daddr port len content cs ≡ (cs, Outcome.too_many_clients)
unfolding serve find_or_add add_client
serve_full rand ip daddr port len content cs h full =
    elim (Option-cases (find_client 0 ip port cs)) [
      | inl missing ↦ ground arith
      | inr (i, found) ↦
          let (d, q, f) = find_client-some 0 ip port i cs found in
          absurd (ground (arith, f.counter))
    ]
