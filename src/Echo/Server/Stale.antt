-- ===== src/Echo/Server/Stale.antt =====
-- Datagrams shorter than their UDP header says, at the server.
use eltex_school.Base.{
  ℕ, ◌+◌, ◌^◌, ◌<◌, ◌≡◌, ◌≢◌, refl, some, List, ◌∷◌, ◌++◌, arith, length, length-append, ap, sym,
  ◌∙◌,
}
use mathlib.Core.List.{append_assoc}
use eltex_school.Text.{codes, show_nat}
use eltex_school.Echo.Packet.{server_port, buffer_size, datagram, ip_header, udp_header}
use eltex_school.Echo.Packet.Parse.{Parsed, NoNul}
use eltex_school.Echo.Clients.{Clients}
use eltex_school.Echo.Clients.Laws.{counter_of}
use eltex_school.Echo.Server.{Outcome, handle}
use eltex_school.Echo.Server.Table.{HasRoom, count_from}
use eltex_school.Echo.Server.Round.{echoed, handle-Parsed, serve_reply}

-- A datagram of which `received` is all that came behind the headers, while the UDP header promises
-- as many bytes as stand in `received ++ stale`.
abbrev pub short_datagram :
    (id saddr daddr port check check' : ℕ) → (received stale : List ℕ) → List ℕ
short_datagram id saddr daddr port check check' received stale =
    ip_header (28 + length received) id saddr daddr check
    ++ (udp_header port server_port (8 + length (received ++ stale)) check' ++ received)

short_datagram-Parsed :
    (id saddr daddr port check check' : ℕ) (received stale rest : List ℕ)
    → saddr < 2 ^ 32
    → daddr < 2 ^ 32
    → port < 2 ^ 16
    → 8 + length (received ++ stale) < 2 ^ 16
    → Parsed saddr daddr port server_port
        (received ++ stale)
        rest
        (short_datagram id saddr daddr port check check' received stale ++ (stale ++ rest))
unfolding ip_header udp_header
short_datagram-Parsed id saddr daddr port check check' received stale rest hs hd hp hl = record {
  words = refl;
  protocol = refl;
  saddr_read = omega arith;
  daddr_read = omega arith;
  source_read = omega arith;
  dest_read = omega arith;
  len_read = omega arith;
  content_read = sym (append_assoc received stale rest);
}

length-short_datagram :
    (id saddr daddr port check check' : ℕ) (received stale : List ℕ)
    → length (short_datagram id saddr daddr port check check' received stale) ≡ 28 + length received
unfolding ip_header udp_header
length-short_datagram id saddr daddr port check check' received stale = omega arith

-- The bytes that the length field of the UDP header promises are echoed whether they were received
-- or not: after a datagram, received whole, whose field promises more bytes than came, whatever its
-- checksums, the reply shows what an earlier datagram left behind them in the buffer, provided that
-- the sender is known or there is room, and that the promised bytes have no NUL, are not SHUTDOWN
-- and leave room for the count in the reply.
pub stale_echoed :
    (rand id saddr daddr port check check' : ℕ) (received stale rest : List ℕ) (cs : Clients)
    → saddr < 2 ^ 32
    → daddr < 2 ^ 32
    → port < 2 ^ 16
    → HasRoom saddr port cs
    → NoNul (received ++ stale)
    → received ++ stale ≢ codes "SHUTDOWN"
    → let count = count_from (counter_of saddr port cs) + 1 in
      28 + length (echoed (received ++ stale) count) < buffer_size
      → let request = short_datagram id saddr daddr port check check' received stale in
        (handle rand (some (length request)) (request ++ (stale ++ rest)) cs).1
        ≡ Outcome.sent
            (datagram rand daddr saddr server_port port (echoed (received ++ stale) count))
stale_echoed rand id saddr daddr port check check' received stale rest cs hs hd hp room clean ne
      fits =
    let text = received ++ stale in
    let count = count_from (counter_of saddr port cs) + 1 in
    let there =
      short_datagram-Parsed id saddr daddr port check check' received stale rest hs hd hp
        (omega (arith, fits, length-append text (b' ' ∷ show_nat count))) in
    ap (λ (r : Clients × Outcome). r.1)
      (handle-Parsed rand _ saddr daddr port text rest _ cs
        (omega (arith, length-short_datagram id saddr daddr port check check' received stale))
        there)
    ∙ serve_reply rand saddr daddr port text rest cs room clean ne fits
