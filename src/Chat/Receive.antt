-- ===== src/Chat/Receive.antt =====
-- lab14/chat_client.c: `receive_messages`, which takes the mutex anew for each message: between two
-- of them the other clients may have done anything.
use eltex_school.Base.{
  ℕ, zero, suc, ◌+◌, ◌%◌, ◌≤◌, ◌≡◌, refl, true, false, List, [], ◌∷◌, ◌++◌, arith, length, get_or,
  ltb, ◌==◌, if◌then◌else◌, ap, sym, ◌∙◌, ◌-◌,
}
use eltex_school.Chat.{max_messages, Message, no_message, ChatShared}
use eltex_school.Chat.Ring.{window, pending}
use eltex_school.Chat.Log.{IsLog, Kept, pending-IsLog}

-- The inner loop: the shared memory as each round finds it, to the end of the list where `running`
-- is cleared. The result is `processed_count` and the messages that were shown.
unfoldable pub read_loop :
    (current_count current_tail : ℕ) → List ChatShared → (processed_count : ℕ) → ℕ × List Message
read_loop count tail [] p = (p, [])
read_loop count tail (s ∷ later) p =
    let read_pos = (s.msg_head + p) % max_messages in
    let rest = read_loop count tail later (if read_pos == tail then p else p + 1) in
    if ltb p count
    then (if read_pos == tail
        then rest
        else (rest.0, get_or s.messages read_pos no_message ∷ rest.1))
    else (p, [])

-- A round of the outer loop, from the reading of `msg_count` and `msg_tail`.
unfoldable pub receive : ChatShared → List ChatShared → (processed_count : ℕ) → ℕ × List Message
unfolding read_loop
receive s later p = read_loop s.msg_count s.msg_tail later p

-- Each of the states comes after `s`.
abbrev pub AllKept : ChatShared → List ChatShared → Type 0
AllKept s [] = Unit {0}
AllKept s (t ∷ later) = Kept s t × AllKept s later

read_loop-window :
    (s : ChatShared) (later : List ChatShared) (p d : ℕ)
    → IsLog s
    → AllKept s later
    → s.msg_count ≡ p + d
    → d ≤ length later
    → read_loop s.msg_count s.msg_tail later p ≡ (s.msg_count, window p d s.messages)
unfolding read_loop
read_loop-window s [] p zero v k e h = ground (arith, e)
read_loop-window s [] p (suc d) v k e h = elim h [ ]
read_loop-window s (t ∷ later) p zero v k e h = ground (arith, e)
read_loop-window s (t ∷ later) p (suc d) v k e h =
    let rest = read_loop-window s later (p + 1) d v k.1 (omega (arith, e)) (omega (arith, h)) in
    let pos_p : (t.msg_head + p) % max_messages ≡ p =
      omega (arith, k.0.valid.from_start, v.few, e) in
    let goes_on : ltb p s.msg_count ≡ true = ground (arith, e) in
    let apart : (p == s.msg_tail) ≡ false = ground (arith, e, v.tail) in
    let here : p % max_messages ≡ p = omega (arith, v.few, e) in
    rw (pos_p, goes_on, apart, rest, k.0.kept p (omega (arith, e)), here) refl

window-append :
    (p n d : ℕ) (ms : List Message) → window p n ms ++ window (p + n) d ms ≡ window p (n + d) ms
window-append p zero d ms =
    let start : p + 0 ≡ p = omega arith in let all : 0 + d ≡ d = omega arith in rw (start, all) refl
window-append p (suc n) d ms =
    let start : p + suc n ≡ p + 1 + n = omega arith in
    let all : suc n + d ≡ suc (n + d) = omega arith in
    rw (start, all, window-append (p + 1) n d ms) refl

-- A receiver that has shown the first messages of a valid log, and that is left running for as many
-- rounds as there are new ones, shows these: each once, in order, and stops; whatever the other
-- clients post in the meantime.
pub receive_rest :
    (s : ChatShared) (later : List ChatShared) (p : ℕ)
    → IsLog s
    → AllKept s later
    → p ≤ s.msg_count
    → s.msg_count ≤ p + length later
    → ((receive s later p).0 ≡ s.msg_count)
      × (window 0 p s.messages ++ (receive s later p).1 ≡ pending s)
unfolding receive
receive_rest s later p v k h long =
    let d = s.msg_count - p in
    let whole : s.msg_count ≡ p + d = omega (arith, h) in
    let start : p ≡ 0 + p = omega arith in
    let read = read_loop-window s later p d v k whole (omega (arith, long)) in
    (
      ap (λ (r : ℕ × List Message). r.0) read,
      ap (λ (r : ℕ × List Message). window 0 p s.messages ++ r.1) read
          ∙ ap (λ (q : ℕ). window 0 p s.messages ++ window q d s.messages) start
          ∙ window-append 0 p d s.messages
          ∙ ap (λ (n : ℕ). window 0 n s.messages) (sym whole)
          ∙ sym (pending-IsLog s v),
    )
