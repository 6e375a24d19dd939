-- ===== src/RawClient/Response.antt =====
-- A text on its way to the modifying server and back.
use eltex_school.Base.{
  ℕ, zero, suc, ◌+◌, ◌-◌, ◌≡◌, ◌<◌, ◌≤◌, ◌%◌, refl, ap, ap₂, subst, ◌∙◌, true, false, ◌&&◌, Option,
  none, some, List, [], ◌∷◌, ◌++◌, ◌==◌, length, drop, replicate, length-append, Option-cases, inl,
  inr, arith,
}
use mathlib.Core.List.{append_assoc}
use eltex_school.Text.{Text}
use eltex_school.Echo.Packet.{be16, ip_header, udp_header, byte, field16, read_text}
use eltex_school.Echo.Packet.Parse.{NoNul, take-all}
use eltex_school.RawClient.{
  port, c_string, is_response, response_text, is_eth_response, wait_response, eth_buffer_size,
  received_buffer,
}
use eltex_school.RawClient.Modify.{
  buffer_size, modify_random_char, modify_random_char-NoNul, serve, OneChanged,
  modify_random_char-OneChanged, length-modify_random_char,
}

read_text-nul :
    (s rest : List ℕ) (n : ℕ) → NoNul s → length s < n → read_text n (s ++ 0 ∷ rest) ≡ some s
unfolding read_text
read_text-nul s rest zero h k = elim k [ ]
read_text-nul [] rest (suc n) h k = elim (Option-cases (read_text n rest)) [
  | inl e ↦ rw (e, read_text) refl
  | inr (t, e) ↦ rw (e, read_text) refl
]
read_text-nul (c ∷ s) rest (suc n) h k =
    rw (read_text-nul s rest n h.1 (omega arith)) (ground (arith, h.0))

pub c_string_lem : (s rest : List ℕ) → NoNul s → c_string (s ++ 0 ∷ rest) ≡ some s
unfolding c_string
c_string_lem s rest h =
    read_text-nul s rest (length (s ++ 0 ∷ rest) + 1) h (omega (arith, length-append s (0 ∷ rest)))

byte-append : (xs ys : List ℕ) (k : ℕ) → byte (xs ++ ys) (length xs + k) ≡ byte ys k
byte-append [] ys k = ap (byte ys) (omega arith)
byte-append (x ∷ xs) ys k =
    let e : length (x ∷ xs) + k ≡ suc (length xs + k) = omega arith in
    ap (byte ((x ∷ xs) ++ ys)) e ∙ byte-append xs ys k

drop-append : (xs ys : List ℕ) (k : ℕ) → drop (length xs + k) (xs ++ ys) ≡ drop k ys
drop-append [] ys k = ap (λ n. drop n ys) (omega arith)
drop-append (x ∷ xs) ys k =
    let e : length (x ∷ xs) + k ≡ suc (length xs + k) = omega arith in
    ap (λ n. drop n ((x ∷ xs) ++ ys)) e ∙ drop-append xs ys k

-- A frame with any addresses, checksums and number from the port of the server.
abbrev pub ip_part : (id saddr daddr check dest check' : ℕ) → (content : List ℕ) → List ℕ
ip_part id saddr daddr check dest check' content =
    ip_header (28 + length content) id saddr daddr check
    ++ (udp_header port dest (8 + length content) check' ++ content)

abbrev pub frame : (macs : List ℕ) → List ℕ → List ℕ
frame macs ip = macs ++ (be16 0x0800 ++ ip)

ip_part-is_response :
    (id saddr daddr check dest check' : ℕ) (content : List ℕ)
    → (zeros : List ℕ)
    → is_response (ip_part id saddr daddr check dest check' content ++ zeros) ≡ true
unfolding is_response ip_header udp_header
ip_part-is_response id saddr daddr check dest check' content zeros = refl

ip_part-response_text :
    (id saddr daddr check dest check' : ℕ) (content : List ℕ)
    → (zeros : List ℕ)
    → response_text (ip_part id saddr daddr check dest check' content ++ zeros)
      ≡ c_string (content ++ zeros)
unfolding response_text ip_header udp_header
ip_part-response_text id saddr daddr check dest check' content zeros = refl

length-ip_part :
    (id saddr daddr check dest check' : ℕ) (content : List ℕ)
    → length (ip_part id saddr daddr check dest check' content) ≡ 28 + length content
unfolding ip_header udp_header
length-ip_part id saddr daddr check dest check' content = omega arith

abbrev zeros_behind : (macs ip : List ℕ) → List ℕ
zeros_behind macs ip = replicate (eth_buffer_size - length (frame macs ip)) 0

-- A frame that fits the buffer stands in it with zeros behind.
received-frame :
    (macs ip : List ℕ)
    → length macs ≡ 12
    → length ip ≤ 2034
    → received_buffer (frame macs ip) ≡ frame macs (ip ++ zeros_behind macs ip)
received-frame macs ip twelve short =
    ap (λ l. l ++ zeros_behind macs ip)
      (take-all eth_buffer_size (frame macs ip)
        (omega (arith, twelve, short, length-append macs (be16 0x0800 ++ ip))))
    ∙ append_assoc macs (be16 0x0800 ++ ip) (zeros_behind macs ip)

module _ (macs ip : List ℕ) (twelve : length macs ≡ 12) where
  drop-frame : drop 14 (frame macs ip) ≡ ip
  drop-frame =
      let behind : length macs + 2 ≡ 14 = omega (arith, twelve) in
      subst (λ n. drop n (frame macs ip) ≡ ip) behind (drop-append macs (be16 0x0800 ++ ip) 2)

  field16-frame : field16 (frame macs ip) 12 ≡ 0x0800
  field16-frame =
      let high : byte (frame macs ip) 12 ≡ 8 =
        subst (λ n. byte (frame macs ip) n ≡ 8) (omega (arith, twelve))
          (byte-append macs (be16 0x0800 ++ ip) 0) in
      let low : byte (frame macs ip) 13 ≡ 0 =
        subst (λ n. byte (frame macs ip) n ≡ 0) (omega (arith, twelve))
          (byte-append macs (be16 0x0800 ++ ip) 1) in
      omega (arith, high, low)

  is_eth_response-frame : is_response ip ≡ true → is_eth_response (frame macs ip) ≡ true
  unfolding is_eth_response
  is_eth_response-frame h =
      ap₂ (λ (n : ℕ) (l : List ℕ). n == 0x0800 && is_response l) field16-frame drop-frame ∙ h

  response_text-frame :
      is_response ip ≡ true
      → (received : List ℕ) (later : List (Option (List ℕ)))
      → received_buffer received ≡ frame macs ip
      → wait_response (some received ∷ later) ≡ some (response_text ip)
  unfolding wait_response
  response_text-frame h received later e =
      rw (e, is_eth_response-frame h) (ap (λ l. some (response_text l)) drop-frame)

-- Packets that the client passes over, and errors of `recvfrom`.
abbrev pub AllOther : List (Option (List ℕ)) → Type 0
AllOther [] = Unit {0}
AllOther (none ∷ events) = AllOther events
AllOther (some frame ∷ events) = (is_eth_response (received_buffer frame) ≡ false) × AllOther events

wait_response-skip :
    (events later : List (Option (List ℕ)))
    → AllOther events
    → wait_response (events ++ later) ≡ wait_response later
unfolding wait_response
wait_response-skip [] later h = refl
wait_response-skip (none ∷ events) later h = wait_response-skip events later h
wait_response-skip (some buf ∷ events) later h = rw (h.0, wait_response-skip events later h.1) refl

-- What the server does with a text and its NUL.
serve_lem :
    (rand rand' : ℕ) (text : Text)
    → NoNul text
    → length text < buffer_size
    → serve rand rand' (text ++ 0 ∷ []) ≡ some (modify_random_char rand rand' text ++ 0 ∷ [])
unfolding serve
serve_lem rand rand' text h short =
    let whole =
      take-all buffer_size (text ++ 0 ∷ []) (omega (arith, short, length-append text (0 ∷ []))) in
    let zeros = replicate (buffer_size - length (text ++ 0 ∷ [])) 0 in
    let read =
      ap (λ l. c_string (l ++ zeros)) whole
      ∙ ap c_string (append_assoc text (0 ∷ []) zeros)
      ∙ c_string_lem text zeros h in
    ap
      (λ (o : Option Text). elim o [
        | none ↦ none
        | some t ↦ some (modify_random_char rand rand' t ++ 0 ∷ [])
      ])
      read

-- A text of less than 1024 bytes that is not empty and has no NUL, sent with a NUL behind it,
-- comes back with exactly one character changed, at the place that the server's `rand` gives: a
-- letter is in the other case, for a digit there is a digit, for anything else an asterisk. The
-- server answers, and the client, which passes over errors and other packets, prints the server's
-- text from the first frame that carries the answer from the server's port, whatever the
-- addresses, numbers and checksums in it.
pub text_returned :
    (rand rand' k : ℕ) (str : Text) (macs : List ℕ) (id saddr daddr check dest check' : ℕ)
    (events later : List (Option (List ℕ)))
    → NoNul (k ∷ str)
    → length (k ∷ str) < buffer_size
    → length macs ≡ 12
    → AllOther events
    → (new : Text) × OneChanged (rand % length (k ∷ str)) (k ∷ str) new
      × (serve rand rand' (k ∷ str ++ 0 ∷ []) ≡ some (new ++ 0 ∷ []))
      × (wait_response (
            events
            ++ some (frame macs (ip_part id saddr daddr check dest check' (new ++ 0 ∷ []))) ∷ later)
          ≡ some (some new))
text_returned rand rand' k str macs id saddr daddr check dest check' events later h short twelve
      other =
    let new = modify_random_char rand rand' (k ∷ str) in
    let answer = new ++ 0 ∷ [] in
    let ip = ip_part id saddr daddr check dest check' answer in
    let zeros = zeros_behind macs ip in
    let fits : length ip ≤ 2034 = omega (
      arith,
      length-ip_part id saddr daddr check dest check' answer,
      length-append new (0 ∷ []),
      length-modify_random_char rand rand' (k ∷ str),
      short,
    ) in
    (
      new,
      modify_random_char-OneChanged rand rand' k str,
      serve_lem rand rand' (k ∷ str) h short,
      wait_response-skip events (some (frame macs ip) ∷ later) other
          ∙ response_text-frame macs (ip ++ zeros) twelve
              (ip_part-is_response id saddr daddr check dest check' answer zeros) (frame macs ip)
              later (received-frame macs ip twelve fits)
          ∙ ap some (
              ip_part-response_text id saddr daddr check dest check' answer zeros
              ∙ ap c_string (append_assoc new (0 ∷ []) zeros)
              ∙ c_string_lem new zeros (modify_random_char-NoNul rand rand' (k ∷ str) h)),
    )
