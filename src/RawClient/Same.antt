-- ===== src/RawClient/Same.antt =====
-- Checksums and packets of lab16/task4 beside those of finalTask1.
use eltex_school.Base.{
  ℕ, ◌+◌, ◌-◌, ◌*◌, ◌%◌, ◌^◌, ◌≡◌, ◌<◌, refl, ap, ap₂, ◌∙◌, sym, List, [], ◌∷◌, ◌++◌, arith, length,
  replicate,
}
use eltex_school.Echo.Checksum.{sum_words, fold_carries, checksum}
use eltex_school.Echo.Checksum.Verify.{IsBytes, total_words, total_words-le, sum_words-total_words}
use eltex_school.Echo.Packet.{
  datagram, ip_header, udp_header, be16, compute_ip_checksum, compute_udp_checksum,
  udp_checksum_buffer,
}
use eltex_school.RawClient.{
  port, client_port, localhost, sum_shorts, add_carries, calculate_checksum, pseudo_buffer,
  udp_packet, ip_packet, eth_packet,
}

sum_shorts-total_words : (sum : ℕ) (buf : List ℕ) → sum_shorts sum buf ≡ sum + total_words buf
unfolding sum_shorts total_words
sum_shorts-total_words sum [] = omega arith
sum_shorts-total_words sum (a ∷ []) = refl
sum_shorts-total_words sum (a ∷ b ∷ buf) =
    omega (arith, sum_shorts-total_words (sum + (a + 256 * b)) buf)

-- Adding the carries twice is what the loop does, for sums below 2^31.
add_carries-fold_carries : (s : ℕ) → s < 2 ^ 31 → add_carries s % 2 ^ 16 ≡ fold_carries 3 s % 2 ^ 16
unfolding add_carries fold_carries
add_carries-fold_carries s h = ground arith

-- For every buffer below 64 KB, `calculate_checksum` of lab16 computes what `checksum` of
-- finalTask1 computes, though the one adds the carries exactly twice in an `int` and the other loops
-- on a 32-bit sum.
pub calculate_checksum_lem :
    (buf : List ℕ) → IsBytes buf → length buf < 2 ^ 16 → calculate_checksum buf ≡ checksum buf
unfolding calculate_checksum checksum
calculate_checksum_lem buf bytes short =
    let bound = total_words-le buf bytes in
    let total = total_words buf in
    let shorts : sum_shorts 0 buf ≡ total = omega (arith, sum_shorts-total_words 0 buf) in
    let words : sum_words 0 buf ≡ total =
      omega (arith, bound, sum_words-total_words 0 buf (omega (arith, bound))) in
    ap (λ s. 2 ^ 16 - 1 - s)
      (ap (λ s. add_carries s % 2 ^ 16) shorts
        ∙ add_carries-fold_carries total (omega (arith, bound))
        ∙ ap (λ s. fold_carries 3 s % 2 ^ 16) (sym words))

ip_header-IsBytes :
    (tot_len id saddr daddr check : ℕ) → IsBytes (ip_header tot_len id saddr daddr check)
unfolding ip_header
ip_header-IsBytes tot_len id saddr daddr check = omega arith

pseudo_buffer-IsBytes : (content : List ℕ) → IsBytes content → IsBytes (pseudo_buffer content)
unfolding pseudo_buffer udp_header
pseudo_buffer-IsBytes content bytes = ground arith

length-pseudo_buffer : (content : List ℕ) → length (pseudo_buffer content) ≡ 20 + length content
unfolding pseudo_buffer udp_header
length-pseudo_buffer content = omega arith

length-ip_header :
    (tot_len id saddr daddr check : ℕ) → length (ip_header tot_len id saddr daddr check) ≡ 20
unfolding ip_header
length-ip_header tot_len id saddr daddr check = refl

udp_packet_lem :
    (content : List ℕ)
    → IsBytes content
    → length content + 28 < 2 ^ 16
    → udp_packet content
      ≡ udp_header client_port port
          (8 + length content)
          (compute_udp_checksum localhost localhost client_port port (8 + length content) content)
        ++ content
unfolding udp_packet compute_udp_checksum udp_checksum_buffer pseudo_buffer
udp_packet_lem content bytes short =
    ap (λ c. udp_header client_port port (8 + length content) c ++ content)
      (calculate_checksum_lem (pseudo_buffer content) (pseudo_buffer-IsBytes content bytes)
        (omega (arith, length-pseudo_buffer content)))

ip_packet_lem :
    (content : List ℕ)
    → IsBytes content
    → length content + 28 < 2 ^ 16
    → ip_packet content ≡ datagram 54321 localhost localhost client_port port content
unfolding ip_packet datagram compute_ip_checksum
ip_packet_lem content bytes short =
    let tot_len = 28 + length content in
    let header = ip_header tot_len 54321 localhost localhost 0 in
    ap₂ (λ (c : ℕ) (u : List ℕ). ip_header tot_len 54321 localhost localhost c ++ u)
      (calculate_checksum_lem header (ip_header-IsBytes tot_len 54321 localhost localhost 0)
        (omega (arith, length-ip_header tot_len 54321 localhost localhost 0)))
      (udp_packet_lem content bytes short)

-- For a content that fits a datagram, the frame of the client that builds every header is the
-- Ethernet header and the very datagram that finalTask1 would build with these addresses and ports.
pub eth_packet_lem :
    (src_mac content : List ℕ)
    → IsBytes content
    → length content + 28 < 2 ^ 16
    → eth_packet src_mac content
      ≡ replicate 6 255
        ++ (src_mac ++ (be16 0x0800 ++ datagram 54321 localhost localhost client_port port content))
unfolding eth_packet
eth_packet_lem src_mac content bytes short =
    ap (λ p. replicate 6 255 ++ (src_mac ++ (be16 0x0800 ++ p))) (ip_packet_lem content bytes short)
