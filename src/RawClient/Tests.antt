-- ===== src/RawClient/Tests.antt =====
-- The theorems of the raw clients and the modifying server at concrete packets.
use eltex_school.Base.{ℕ, ◌%◌, ◌≡◌, refl, none, some, List, [], ◌∷◌, ◌++◌, replicate, arith}
use eltex_school.Text.{codes}
use eltex_school.Echo.Packet.{be16, datagram}
use eltex_school.RawClient.{port, client_port, localhost, eth_packet, wait_response}
use eltex_school.RawClient.Same.{eth_packet_lem}
use eltex_school.RawClient.Modify.{modify_random_char, modified, serve, OneChanged}
use eltex_school.RawClient.Response.{ip_part, frame, text_returned}

abbrev mac : List ℕ
mac = replicate 6 0

eth_packet_lem_example :
    eth_packet mac (codes "Hi" ++ 0 ∷ [])
    ≡ replicate 6 255
      ++ (mac
          ++ (be16 0x0800
              ++ datagram 54321 localhost localhost client_port port (codes "Hi" ++ 0 ∷ [])))
eth_packet_lem_example = eth_packet_lem mac (codes "Hi" ++ 0 ∷ []) (omega arith) (omega arith)

text_returned_example :
    (new : List ℕ) × OneChanged (4 % 3) (codes "aB1") new
    × (serve 4 8 (codes "aB1" ++ 0 ∷ []) ≡ some (new ++ 0 ∷ []))
    × (wait_response (
          none ∷ some (frame (replicate 12 0) (ip_part 1 2 3 4 client_port 5 (new ++ 0 ∷ []))) ∷ [])
        ≡ some (some new))
text_returned_example =
    text_returned 4 8 b'a' (codes "B1") (replicate 12 0) 1 2 3 4 client_port 5 (none ∷ []) []
      (omega arith) (omega arith) refl tt

modify_test : modify_random_char 4 8 (codes "aB1") ≡ codes "ab1"
unfolding modify_random_char modified
modify_test = refl
