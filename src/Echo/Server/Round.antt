-- ===== src/Echo/Server/Round.antt =====
-- A message from the client and its reply, through the server and back.
use eltex_school.Base.{
  ℕ, suc, zero, ◌+◌, ◌-◌, ◌/◌, ◌%◌, ◌^◌, ◌≤◌, ◌<◌, ◌≡◌, ◌≢◌, refl, true, false, Option, some, List,
  [], ◌∷◌, ◌++◌, arith, length, length-append, ap, ◌∙◌,
}
use eltex_school.Text.{Text, codes, starts_with, show_nat, digits_loop}
use eltex_school.Echo.Packet.{server_port, buffer_size, field16, datagram}
use eltex_school.Echo.Packet.Parse.{
  Parsed, datagram-Parsed, length-datagram, take-all, NoNul, read_text-append,
}
use eltex_school.Echo.Clients.{Clients}
use eltex_school.Echo.Clients.Laws.{counter_of}
use eltex_school.Echo.Server.{Outcome, response, reply, respond, serve, handle, is_for_us}
use eltex_school.Echo.Server.Table.{is_shutdown, HasRoom, count_from, entry-Found}
use eltex_school.Echo.Client.{localhost, message, is_reply, reply_text, wait_reply, printed}
use eltex_school.Echo.Client

digits_loop-NoNul : (k n : ℕ) (s : Text) → NoNul s → NoNul (digits_loop k n s)
unfolding digits_loop
digits_loop-NoNul zero n s h = h
digits_loop-NoNul (suc k) n s h =
    ground (arith, h, digits_loop-NoNul k (n / 10) ((48 + n % 10) ∷ s) (omega arith, h))

NoNul-append : (s t : Text) → NoNul s → NoNul t → NoNul (s ++ t)
NoNul-append [] t h k = k
NoNul-append (c ∷ s) t (h, hs) k = (h, NoNul-append s t hs k)

show_nat-NoNul : (n : ℕ) → NoNul (show_nat n)
unfolding show_nat
show_nat-NoNul n = digits_loop-NoNul (suc n) n [] tt

eq_of_starts_with : (s r t : Text) → length s ≡ length t → starts_with (s ++ r) t ≡ true → s ≡ t
unfolding starts_with
eq_of_starts_with [] r [] h e = refl
eq_of_starts_with [] r (d ∷ t) h e = absurd (omega arith)
eq_of_starts_with (c ∷ s) r [] h e = absurd (omega arith)
eq_of_starts_with (c ∷ s) r (d ∷ t) h e = ground (arith, eq_of_starts_with s r t (omega arith))

not_shutdown :
    (text rest : Text) → text ≢ codes "SHUTDOWN" → is_shutdown (length text) (text ++ rest) ≡ false
not_shutdown text rest ne = ground (arith, eq_of_starts_with text rest (codes "SHUTDOWN"))

-- What the server reads from a datagram whose headers were received.
pub handle-Parsed :
    (rand n saddr daddr port : ℕ) (content rest buf : List ℕ) (cs : Clients)
    → 28 ≤ n
    → Parsed saddr daddr port server_port content rest buf
    → handle rand (some n) buf cs
      ≡ serve rand saddr daddr port (length content) (content ++ rest) cs
unfolding handle is_for_us
handle-Parsed rand n saddr daddr port content rest buf cs long p =
    let pass : is_for_us n buf ≡ true =
      rw p.words (ground (arith, p.protocol, p.dest_read, p.len_read)) in
    let len : field16 buf 24 - 8 ≡ length content = omega (arith, p.len_read) in
    rw pass (rw (p.words, p.saddr_read, p.daddr_read, p.source_read, p.content_read, len) refl)

-- What the client reads from such a datagram, whose content has no NUL.
wait_reply-Parsed :
    (saddr daddr port : ℕ) (content rest buf : List ℕ) (events : List (Option ℕ × List ℕ))
    → NoNul content
    → Parsed saddr daddr server_port port content rest buf
    → wait_reply port ((some (28 + length content), buf) ∷ events) ≡ printed content
unfolding wait_reply is_reply reply_text
wait_reply-Parsed saddr daddr port content rest buf events h p =
    let pass : is_reply port (28 + length content) buf ≡ true =
      rw p.words (ground (arith, p.protocol, p.dest_read, p.source_read, p.len_read)) in
    let len : field16 buf 24 - 8 ≡ length content = omega (arith, p.len_read) in
    rw pass (rw (reply_text, p.words, p.content_read, len, read_text-append content rest h) refl)

-- The whole reply: nothing is cut off while it fits the send buffer.
reply_whole :
    (rand ip daddr port : ℕ) (resp : Text)
    → 28 + length resp < buffer_size
    → reply rand ip daddr port resp ≡ Outcome.sent (datagram rand daddr ip server_port port resp)
unfolding reply
reply_whole rand ip daddr port resp h =
    let whole =
      take-all ((28 + length resp) % buffer_size) (datagram rand daddr ip server_port port resp)
        (omega (arith, length-datagram rand daddr ip server_port port resp)) in
    ground (arith, whole)

message_whole :
    (rand server_ip port : ℕ) (text : Text)
    → 28 + length text < buffer_size
    → message rand server_ip port text
      ≡ Client.sent (datagram rand localhost server_ip port server_port text)
unfolding message
message_whole rand server_ip port text h =
    let whole =
      take-all ((28 + length text) % buffer_size)
        (datagram rand localhost server_ip port server_port text)
        (omega (arith, length-datagram rand localhost server_ip port server_port text)) in
    ground (arith, whole)

-- The reply to a text that has no NUL and is not SHUTDOWN.
abbrev pub echoed : Text → ℕ → Text
echoed text counter = text ++ (b' ' ∷ show_nat counter)

pub serve_reply :
    (rand ip daddr port : ℕ) (text rest : Text) (cs : Clients)
    → HasRoom ip port cs
    → NoNul text
    → text ≢ codes "SHUTDOWN"
    → 28 + length (echoed text (count_from (counter_of ip port cs) + 1)) < buffer_size
    → (serve rand ip daddr port (length text) (text ++ rest) cs).1
      ≡ Outcome.sent (
          datagram rand daddr ip server_port port
            (echoed text (count_from (counter_of ip port cs) + 1)))
unfolding serve
serve_reply rand ip daddr port text rest cs room clean ne fits =
    let (i, cs', e, f, start, others) = entry-Found ip port cs room in
    let n = count_from (counter_of ip port cs) + 1 in
    let whole = take-all (buffer_size - 1) (echoed text n) (omega arith) in
    rw (e, serve)
      (unfold respond response in
        rw (not_shutdown text rest ne, read_text-append text rest clean, start, whole)
          (reply_whole rand ip daddr port (echoed text n) fits))

module _ (server_ip port : ℕ) (text : Text) (cs : Clients) where
  abbrev pub next_count : ℕ
  next_count = count_from (counter_of localhost port cs) + 1

  -- The client's datagram with a text (no NUL, not SHUTDOWN, response within a datagram), received
  -- whole by a server that knows the sender or has room, is answered; and the client, given the
  -- answer, prints the text with the number of its messages so far. What lies behind the datagrams
  -- in both receive buffers does not matter.
  pub echo_round :
      (rand rand' : ℕ) (rest rest' : List ℕ) (events : List (Option ℕ × List ℕ))
      → server_ip < 2 ^ 32
      → port < 2 ^ 16
      → HasRoom localhost port cs
      → NoNul text
      → text ≢ codes "SHUTDOWN"
      → 28 + length (echoed text next_count) < buffer_size
      → let request = datagram rand localhost server_ip port server_port text in
        let answer = datagram rand' server_ip localhost server_port port (echoed text next_count) in
        (message rand server_ip port text ≡ Client.sent request)
        × ((handle rand' (some (length request)) (request ++ rest) cs).1 ≡ Outcome.sent answer)
        × (wait_reply port ((some (length answer), answer ++ rest') ∷ events)
            ≡ printed (echoed text next_count))
  echo_round rand rand' rest rest' events hs hp room clean ne fits =
      let resp = echoed text next_count in
      let short : 28 + length text < buffer_size =
        omega (arith, length-append text (b' ' ∷ show_nat next_count)) in
      let there =
        datagram-Parsed rand localhost server_ip port server_port text rest (omega arith) hs hp
          (omega arith) (omega arith) in
      let back =
        datagram-Parsed rand' server_ip localhost server_port port resp rest' hs (omega arith)
          (omega arith) hp (omega arith) in
      let clean' =
        NoNul-append text (b' ' ∷ show_nat next_count) clean
          (omega arith, show_nat-NoNul next_count) in
      (
        message_whole rand server_ip port text short,
        rw (length-datagram rand localhost server_ip port server_port text) (
            ap (λ (r : Clients × Outcome). r.1)
              (handle-Parsed rand' (28 + length text) localhost server_ip port text rest _ cs
                (omega arith) there)
            ∙ serve_reply rand' localhost server_ip port text rest cs room clean ne fits),
        rw (length-datagram rand' server_ip localhost server_port port resp)
            (wait_reply-Parsed server_ip localhost port resp rest' _ events clean' back),
      )
