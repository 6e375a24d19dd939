-- ===== src/RawClient.antt =====
-- lab16/task4: the clients that build headers themselves, raw_client_udp.c, raw_client_ip_udp.c and
-- raw_client_eth_ip_udp.c. The layout of the headers is that of Echo/Packet; `content` is the text
-- of the client with its NUL.
pub mod Same
pub mod Response
pub mod Modify
mod Tests
use eltex_school.Base.{
  ℕ, zero, suc, ◌+◌, ◌-◌, ◌*◌, ◌/◌, ◌%◌, ◌^◌, Bool, true, false, ◌&&◌, Option, none, some, List, [],
  ◌∷◌, ◌++◌, ◌==◌, if◌then◌else◌, length, drop, take, replicate,
}
use eltex_school.Text.{Text, codes}
use eltex_school.Echo.Packet.{be16, le32, ip_header, udp_header, byte, field16, read_text}

abbrev pub port : ℕ
port = 8086

abbrev pub client_port : ℕ
client_port = 12345

-- `inet_addr ("127.0.0.1")`.
abbrev pub localhost : ℕ
localhost = 0x0100007f

-- The loop of `calculate_checksum`, and the odd byte behind it; the sum is an `int`, which buffers
-- below 64 KB do not fill.
unfoldable pub sum_shorts : (sum : ℕ) → List ℕ → ℕ
sum_shorts sum [] = sum
sum_shorts sum (a ∷ []) = sum + a
sum_shorts sum (a ∷ b ∷ buf) = sum_shorts (sum + (a + 256 * b)) buf

-- The two additions of carries.
unfoldable pub add_carries : (sum : ℕ) → ℕ
add_carries sum = let once = sum / 2 ^ 16 + sum % 2 ^ 16 in once + once / 2 ^ 16

-- `answer = ~sum`, cut to 16 bits.
unfoldable pub calculate_checksum : List ℕ → ℕ
unfolding sum_shorts add_carries
calculate_checksum buf = 2 ^ 16 - 1 - add_carries (sum_shorts 0 buf) % 2 ^ 16

-- The data of the three clients.
abbrev pub udp_data : Text
udp_data = codes "Hello from Task 1: UDP header only!" ++ 0 ∷ []

abbrev pub ip_udp_data : Text
ip_udp_data = codes "Hello from Task 2: IP+UDP headers!" ++ 0 ∷ []

abbrev pub eth_ip_udp_data : Text
eth_ip_udp_data = codes "Hello from Task 3: Ethernet+IP+UDP headers!" ++ 0 ∷ []

-- `pseudo_buffer`: the pseudo header, then the UDP header with its checksum zero and the data.
unfoldable pub pseudo_buffer : (content : List ℕ) → List ℕ
pseudo_buffer content =
    let len = 8 + length content in
    (le32 localhost ++ (le32 localhost ++ (0 ∷ 17 ∷ be16 len)))
    ++ (udp_header client_port port len 0 ++ content)

-- The packet of raw_client_udp.c.
unfoldable pub udp_packet : (content : List ℕ) → List ℕ
unfolding pseudo_buffer calculate_checksum
udp_packet content =
    udp_header client_port port (8 + length content) (calculate_checksum (pseudo_buffer content))
    ++ content

-- The packet of raw_client_ip_udp.c.
unfoldable pub ip_packet : (content : List ℕ) → List ℕ
unfolding udp_packet calculate_checksum
ip_packet content =
    let tot_len = 28 + length content in
    ip_header tot_len 54321 localhost localhost
      (calculate_checksum (ip_header tot_len 54321 localhost localhost 0))
    ++ udp_packet content

-- The packet of raw_client_eth_ip_udp.c: all hosts, its own address, the type of IP.
unfoldable pub eth_packet : (src_mac content : List ℕ) → List ℕ
unfolding ip_packet
eth_packet src_mac content = replicate 6 255 ++ (src_mac ++ (be16 0x0800 ++ ip_packet content))

-- `%s` of the bytes behind a pointer; `none` if no NUL follows in the buffer.
unfoldable pub c_string : List ℕ → Option Text
unfolding read_text
c_string buf = read_text (length buf + 1) buf

-- The tests on a received packet of raw_client_ip_udp.c, and the text that it prints.
unfoldable pub is_response : List ℕ → Bool
is_response buf = byte buf 9 == 17 && field16 buf (byte buf 0 % 16 * 4) == port

unfoldable pub response_text : List ℕ → Option Text
unfolding c_string
response_text buf = c_string (drop (byte buf 0 % 16 * 4 + 8) buf)

-- Those of raw_client_eth_ip_udp.c.
unfoldable pub is_eth_response : List ℕ → Bool
unfolding is_response
is_eth_response buf = field16 buf 12 == 0x0800 && is_response (drop 14 buf)

abbrev pub eth_buffer_size : ℕ
eth_buffer_size = 2048

-- `recv_buffer` after a frame was received: what does not fit is cut off, zeros are behind the rest.
abbrev pub received_buffer : List ℕ → List ℕ
received_buffer frame = take eth_buffer_size frame ++ replicate (eth_buffer_size - length frame) 0

-- Its loop: the text of the first response, past errors of `recvfrom` and other packets; `none`
-- while none has come.
unfoldable pub wait_response : List (Option (List ℕ)) → Option (Option Text)
unfolding is_eth_response response_text
wait_response [] = none
wait_response (none ∷ events) = wait_response events
wait_response (some frame ∷ events) =
    let buf = received_buffer frame in
    let later = wait_response events in
    if is_eth_response buf then some (response_text (drop 14 buf)) else later
