-- ===== src/Echo/Client.antt =====
-- finalTask1/client.c: what it sends for a line of input, and which datagram it takes for the reply.
-- The checksums are the same text as the server's.
use eltex_school.Base.{
  ℕ, ◌+◌, ◌-◌, ◌*◌, ◌%◌, Bool, true, false, ◌&&◌, Option, none, some, List, [], ◌∷◌, ltb, leb, ◌==◌,
  if◌then◌else◌, length, take, drop,
}
use eltex_school.Text.{Text, codes, str_eq, fgets}
use eltex_school.Echo.Checksum
use eltex_school.Echo.Packet
use eltex_school.Echo.Packet.{server_port, buffer_size, byte, field16, read_text, datagram}

abbrev pub checksum : List ℕ → ℕ
checksum = Checksum.checksum

abbrev pub compute_ip_checksum : (tot_len id saddr daddr : ℕ) → ℕ
compute_ip_checksum = Packet.compute_ip_checksum

abbrev pub compute_udp_checksum : (saddr daddr source dest len : ℕ) → List ℕ → ℕ
compute_udp_checksum = Packet.compute_udp_checksum

-- `inet_addr ("127.0.0.1")`.
abbrev pub localhost : ℕ
localhost = 0x0100007f

-- `client_port`.
unfoldable pub choose_port : ℕ → ℕ
choose_port rand = 1024 + rand % (65535 - 1024)

pub data Sent : Type 0 where
  sent : List ℕ → Sent
  overflow : Sent

-- The bytes that `sendto` is given for a text; `overflow` is a `memcpy` past the send buffer.
unfoldable pub message : (rand server_ip client_port : ℕ) → Text → Sent
message rand server_ip client_port text =
    if ltb buffer_size (28 + length text)
    then overflow
    else sent (
        take ((28 + length text) % buffer_size)
          (datagram rand localhost server_ip client_port server_port text))

-- `send_shutdown`: what it sends, if anything, and the new `shutdown_sent`.
unfoldable pub send_shutdown :
    (rand server_ip client_port : ℕ) → (shutdown_sent : Bool) → Option (List ℕ) × Bool
send_shutdown rand server_ip client_port true = (none, true)
send_shutdown rand server_ip client_port false = (
  some (take 36 (datagram rand localhost server_ip client_port server_port (codes "SHUTDOWN"))),
  true,
)

-- The filters on a received datagram.
unfoldable pub is_reply : (client_port recv_len : ℕ) → List ℕ → Bool
is_reply client_port recv_len buf =
    let off = byte buf 0 % 16 * 4 in
    byte buf 9 == 17
    && leb (off + 8) recv_len
    && (field16 buf (off + 2) == client_port && field16 buf off == server_port)
    && leb 8 (field16 buf (off + 4))

pub data Reply : Type 0 where
  printed : Text → Reply
  recv_failed fault waiting : Reply

-- The text that is printed for a reply.
unfoldable pub reply_text : List ℕ → Reply
reply_text buf =
    let off = byte buf 0 % 16 * 4 in
    elim (read_text (field16 buf (off + 4) - 8) (drop (off + 8) buf)) [
      | none ↦ fault
      | some t ↦ printed t
    ]

-- The inner loop: the first datagram that passes the filters, or an error of `recvfrom`.
unfoldable pub wait_reply : ℕ → List (Option ℕ × List ℕ) → Reply
wait_reply client_port [] = waiting
wait_reply client_port ((none, buf) ∷ events) = recv_failed
wait_reply client_port ((some n, buf) ∷ events) =
    if is_reply client_port n buf then reply_text buf else wait_reply client_port events

-- `if (len > 0 && input[len - 1] == '\n') input[len - 1] = '\0'`.
unfoldable pub chop_newline : Text → Text
chop_newline [] = []
chop_newline (c ∷ []) = if c == 10 then [] else c ∷ []
chop_newline (c ∷ d ∷ s) = c ∷ chop_newline (d ∷ s)

-- One round of `main`: `none` where it leaves the loop, else what it sends, and the input left.
-- Where `sendto` succeeds, `wait_reply` follows.
unfoldable pub round : (rand server_ip client_port : ℕ) → Text → Option (Sent × Text)
unfolding message chop_newline
round rand server_ip client_port input = elim (fgets buffer_size input) [
  | none ↦ none
  | some (line, rest) ↦
      let text = chop_newline line in
      if str_eq text (codes "exit")
      then none
      else some (message rand server_ip client_port text, rest)
]
