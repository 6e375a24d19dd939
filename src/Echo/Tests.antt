-- ===== src/Echo/Tests.antt =====
-- The theorems of the echo service at concrete datagrams.
use eltex_school.Base.{
  ℕ, ◌/◌, ◌%◌, ◌≡◌, ◌≢◌, refl, none, some, List, [], ◌∷◌, ◌++◌, arith, length, inl,
}
use eltex_school.Text.{codes, starts_with, show_nat, digits_loop}
use eltex_school.Echo.Checksum.{checksum}
use eltex_school.Echo.Checksum.Verify.{checksum_verifies}
use eltex_school.Echo.Packet.{server_port, datagram}
use eltex_school.Echo.Clients.{Clients}
use eltex_school.Echo.Clients.Laws.{counter_of}
use eltex_school.Echo.Clients.Valid.{IsValid}
use eltex_school.Echo.Server.{Outcome, serve, handle}
use eltex_school.Echo.Server.Table.{handle-IsValid, serve_counters}
use eltex_school.Echo.Server.Round.{echo_round, echoed}
use eltex_school.Echo.Server.Stale.{stale_echoed, short_datagram}
use eltex_school.Echo.Client
use eltex_school.Echo.Client.{localhost, message, wait_reply, printed}

-- The header of RFC 1071 style: the stored checksum makes the sum come out.
abbrev head_bytes : List ℕ
head_bytes = 0x45 ∷ 0 ∷ 0 ∷ 36 ∷ 0 ∷ 7 ∷ 0 ∷ 0 ∷ 64 ∷ 17 ∷ []

abbrev tail_bytes : List ℕ
tail_bytes = 127 ∷ 0 ∷ 0 ∷ 1 ∷ 127 ∷ 0 ∷ 0 ∷ 1 ∷ []

checksum_verifies_example :
    let c = checksum (head_bytes ++ 0 ∷ 0 ∷ tail_bytes) in
    checksum (head_bytes ++ (c % 256) ∷ (c / 256) ∷ tail_bytes) ≡ 0
checksum_verifies_example = checksum_verifies head_bytes tail_bytes refl (omega arith) (omega arith)

abbrev one_client : Clients
one_client = record { ip = localhost; port = 2000; counter = 4 } ∷ []

one_client-IsValid : IsValid one_client
unfolding counter_of
one_client-IsValid = record { unique = (refl, tt); few = omega arith }

handle-IsValid_example : IsValid (handle 7 (some 3) (1 ∷ 2 ∷ 3 ∷ []) one_client).0
handle-IsValid_example = handle-IsValid 7 (some 3) (1 ∷ 2 ∷ 3 ∷ []) one_client one_client-IsValid

serve_counters_example :
    counter_of localhost 2000 (serve 7 localhost localhost 2000 2 (codes "hi") one_client).0
    ≡ some 5
unfolding counter_of starts_with
serve_counters_example =
    serve_counters 7 localhost localhost 2000 2 (codes "hi") one_client one_client-IsValid
      (inl (λ e. cc)) localhost 2000

known : counter_of localhost 2000 one_client ≢ none
unfolding counter_of
known e = cc

echo_round_example :
    let request = datagram 1 localhost localhost 2000 server_port (codes "hi") in
    let answer = datagram 2 localhost localhost server_port 2000 (echoed (codes "hi") 5) in
    (message 1 localhost 2000 (codes "hi") ≡ Client.sent request)
    × ((handle 2 (some (length request)) (request ++ 9 ∷ []) one_client).1 ≡ Outcome.sent answer)
    × (wait_reply 2000 ((some (length answer), answer ++ []) ∷ [])
        ≡ printed (echoed (codes "hi") 5))
unfolding counter_of
echo_round_example =
    echo_round localhost 2000 (codes "hi") one_client 1 2 (9 ∷ []) [] [] (omega arith) (omega arith)
      (inl known) (omega arith) (λ e. cc) (unfold show_nat digits_loop in omega arith)

-- One byte is received where three are promised; `ab` is left from before.
stale_echoed_example :
    let request = short_datagram 1 localhost localhost 2000 0 0 (codes "h") (codes "ab") in
    (handle 2 (some (length request)) (request ++ (codes "ab" ++ [])) one_client).1
    ≡ Outcome.sent (datagram 2 localhost localhost server_port 2000 (echoed (codes "hab") 5))
unfolding counter_of
stale_echoed_example =
    stale_echoed 2 1 localhost localhost 2000 0 0 (codes "h") (codes "ab") [] one_client
      (omega arith) (omega arith) (omega arith) (inl known) (omega arith) (λ e. cc)
      (unfold show_nat digits_loop in omega arith)
