-- ===== src/Echo/Packet.antt =====
-- The datagrams of finalTask1: headers as bytes in memory, as server.c and client.c fill them. A
-- field that the programs set or read through `htons` and `ntohs` is a number, high byte first; the
-- addresses and the checksums are copied as the machine stores them, low byte first.
pub mod Parse
use eltex_school.Base.{
  ℕ, ◌+◌, ◌*◌, ◌/◌, ◌%◌, ◌^◌, List, [], ◌∷◌, ◌++◌, length, get_or, Option, none, some, suc, zero,
  if◌then◌else◌, ◌==◌,
}
use eltex_school.Text.{Text}
use eltex_school.Echo.Checksum.{checksum}

abbrev pub server_port : ℕ
server_port = 8888

abbrev pub buffer_size : ℕ
buffer_size = 65536

-- The bytes of `htons (n)`, whose argument is cut to 16 bits.
abbrev pub be16 : ℕ → List ℕ
be16 n = (n / 256 % 256) ∷ (n % 256) ∷ []

abbrev pub le16 : ℕ → List ℕ
le16 n = (n % 256) ∷ (n / 256 % 256) ∷ []

abbrev pub le32 : ℕ → List ℕ
le32 n = (n % 256) ∷ (n / 256 % 256) ∷ (n / 65536 % 256) ∷ (n / 16777216 % 256) ∷ []

-- `struct iphdr`: `memset` to 0, version 4, 5 words, time to live 64, protocol 17 (UDP).
unfoldable pub ip_header : (tot_len id saddr daddr check : ℕ) → List ℕ
ip_header tot_len id saddr daddr check =
    (0x45 ∷ 0 ∷ be16 tot_len)
    ++ (be16 id ++ (0 ∷ 0 ∷ 64 ∷ 17 ∷ le16 check ++ (le32 saddr ++ le32 daddr)))

unfoldable pub udp_header : (source dest len check : ℕ) → List ℕ
udp_header source dest len check = be16 source ++ (be16 dest ++ (be16 len ++ le16 check))

-- `compute_ip_checksum`: what it stores, for a header of 5 words.
unfoldable pub compute_ip_checksum : (tot_len id saddr daddr : ℕ) → ℕ
compute_ip_checksum tot_len id saddr daddr = checksum (ip_header tot_len id saddr daddr 0)

-- The buffer of `compute_udp_checksum`: the pseudo header, the UDP header with its checksum zeroed
-- and the data.
unfoldable pub udp_checksum_buffer : (saddr daddr source dest len : ℕ) → List ℕ → List ℕ
udp_checksum_buffer saddr daddr source dest len content =
    (le32 saddr ++ (le32 daddr ++ (0 ∷ 17 ∷ be16 (8 + length content))))
    ++ (udp_header source dest len 0 ++ content)

-- `compute_udp_checksum`: what it stores.
unfoldable pub compute_udp_checksum : (saddr daddr source dest len : ℕ) → List ℕ → ℕ
compute_udp_checksum saddr daddr source dest len content =
    checksum (udp_checksum_buffer saddr daddr source dest len content)

-- The send buffer: both headers with their checksums, then the data.
unfoldable pub datagram : (id saddr daddr source dest : ℕ) → List ℕ → List ℕ
datagram id saddr daddr source dest content =
    let tot_len = 28 + length content in
    let len = 8 + length content in
    ip_header tot_len id saddr daddr (compute_ip_checksum tot_len id saddr daddr)
    ++ (udp_header source dest len (compute_udp_checksum saddr daddr source dest len content)
        ++ content)

-- Reading a received buffer. A byte past its end is no part of the model: `read_text` fails there.
abbrev pub byte : List ℕ → ℕ → ℕ
byte buf i = get_or buf i 0

abbrev pub field16 : List ℕ → ℕ → ℕ
field16 buf i = byte buf i * 256 + byte buf (i + 1)

abbrev pub field32 : List ℕ → ℕ → ℕ
field32 buf i =
    byte buf i + 256 * byte buf (i + 1) + 65536 * byte buf (i + 2) + 16777216 * byte buf (i + 3)

-- `%.*s`: at most `n` bytes, up to a NUL; `none` if it would read past the buffer.
unfoldable pub read_text : ℕ → List ℕ → Option Text
read_text zero buf = some []
read_text (suc n) [] = none
read_text (suc n) (c ∷ buf) = elim (read_text n buf) [
  | none ↦ (if c == 0 then some [] else none)
  | some t ↦ (if c == 0 then some [] else some (c ∷ t))
]
