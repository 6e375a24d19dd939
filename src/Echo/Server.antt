-- ===== src/Echo/Server.antt =====
-- finalTask1/server.c: the body of the loop in `main`. `rand ()` and what `recvfrom` received are
-- arguments; log lines are left out.
pub mod Table
pub mod Round
pub mod Stale
use eltex_school.Base.{
  ℕ, ◌+◌, ◌-◌, ◌*◌, ◌%◌, Bool, ◌&&◌, not, Option, none, some, List, [], ◌∷◌, ◌++◌, ltb, leb, ◌==◌,
  if◌then◌else◌, length, take, drop,
}
use eltex_school.Text.{Text, codes, show_nat, starts_with}
use eltex_school.Echo.Packet.{server_port, buffer_size, byte, field16, field32, read_text, datagram}
use eltex_school.Echo.Clients.{Clients, find_or_add, remove_client, bump, counter_at}

-- How one round ends. `fault` is a read or a write outside a buffer, which C leaves undefined.
pub data Outcome : Type 0 where
  recv_failed ignored too_many_clients fault : Outcome
  shut_down : (ip port : ℕ) → Outcome
  sent : List ℕ → Outcome

-- `snprintf (response, 65536, "%.*s %d", …)` and `resp_len`: the bytes of the response.
unfoldable pub response : Text → ℕ → Text
response text counter = take (buffer_size - 1) (text ++ (b' ' ∷ show_nat counter))

-- The reply to a message from `ip`, `port`: its headers, and the bytes that `sendto` takes from the
-- send buffer, as many as the 16-bit `tot_len` says.
unfoldable pub reply : (rand ip daddr port : ℕ) → Text → Outcome
reply rand ip daddr port resp =
    if ltb buffer_size (28 + length resp)
    then fault
    else sent
        (take ((28 + length resp) % buffer_size) (datagram rand daddr ip server_port port resp))

-- From `strncmp` on, for the entry with index `i`.
unfoldable pub respond : (rand ip daddr port len : ℕ) → List ℕ → ℕ → Clients → Clients × Outcome
unfolding response reply
respond rand ip daddr port len content i cs =
    if len == 8 && starts_with content (codes "SHUTDOWN")
    then (remove_client ip port cs, shut_down ip port)
    else elim (read_text len content) [
      | none ↦ (bump i cs, fault)
      | some text ↦ (bump i cs, reply rand ip daddr port (response text (counter_at i cs + 1)))
    ]

-- A datagram that passed the filters.
unfoldable pub serve : (rand ip daddr port len : ℕ) → List ℕ → Clients → Clients × Outcome
unfolding respond
serve rand ip daddr port len content cs = elim (find_or_add ip port cs) [
  | none ↦ (cs, too_many_clients)
  | some (i, cs') ↦ respond rand ip daddr port len content i cs'
]

abbrev pub header_length : List ℕ → ℕ
header_length buf = byte buf 0 % 16 * 4

-- The filters: a UDP datagram for this port, whose headers were received.
unfoldable pub is_for_us : ℕ → List ℕ → Bool
is_for_us recv_len buf =
    let off = header_length buf in
    byte buf 9 == 17
    && leb (off + 8) recv_len
    && field16 buf (off + 2) == server_port
    && leb 8 (field16 buf (off + 4))

-- One round. `recv_len` is `none` for an error of `recvfrom`; `buf` is the whole receive buffer.
unfoldable pub handle : (rand : ℕ) → Option ℕ → List ℕ → Clients → Clients × Outcome
unfolding serve is_for_us
handle rand none buf cs = (cs, recv_failed)
handle rand (some recv_len) buf cs =
    let off = header_length buf in
    if is_for_us recv_len buf
    then serve rand (field32 buf 12) (field32 buf 16) (field16 buf off) (field16 buf (off + 4) - 8)
        (drop (off + 8) buf) cs
    else (cs, ignored)
