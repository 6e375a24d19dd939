-- ===== src/Chat/Ring.antt =====
-- The ring of messages as a bounded queue.
use eltex_school.Base.{
  ℕ, zero, suc, ◌+◌, ◌-◌, ◌%◌, ◌<◌, ◌≡◌, ◌≢◌, refl, sym, Option, List, [], true, false, ◌∷◌, ◌++◌,
  arith, length, set, get_or, get_or-set, get_or-set_ne, if◌then◌else◌, ◌==◌, Bool-cases, inl, inr,
}
use eltex_school.Base.Int.{ℤ}
use eltex_school.Text.{Text}
use eltex_school.Chat.{max_messages, Message, no_message, ChatShared, id_or, post}

-- `n` messages from position `p` on.
abbrev pub window : ℕ → ℕ → List Message → List Message
window p zero ms = []
window p (suc n) ms = get_or ms (p % max_messages) no_message ∷ window (p + 1) n ms

abbrev pub size : ChatShared → ℕ
size s = (s.msg_tail + max_messages - s.msg_head) % max_messages

-- The messages from the head to the tail, oldest first.
abbrev pub pending : ChatShared → List Message
pending s = window s.msg_head (size s) s.messages

pub record IsRing (s : ChatShared) : Type 0 where
  pub slots : length s.messages ≡ max_messages
  pub head_within : s.msg_head < max_messages
  pub tail_within : s.msg_tail < max_messages

window-set :
    (p n t : ℕ) (ms : List Message) (m : Message)
    → t ≡ (p + n) % max_messages
    → n < max_messages
    → window p n (set ms t m) ≡ window p n ms
window-set p zero t ms m e h = refl
window-set p (suc n) t ms m e h =
    let apart : t ≢ p % max_messages = λ q. omega (arith, e, h, q) in
    rw
      (
        get_or-set_ne ms t (p % max_messages) m no_message apart,
        window-set (p + 1) n t ms m (omega arith) (omega arith),
      )
      refl

window-snoc :
    (p n : ℕ) (ms : List Message)
    → window p (suc n) ms ≡ window p n ms ++ get_or ms ((p + n) % max_messages) no_message ∷ []
window-snoc p zero ms = let same : p + 0 ≡ p = omega arith in rw same refl
window-snoc p (suc n) ms =
    let later = window-snoc (p + 1) n ms in
    let same : p + suc n ≡ p + 1 + n = omega arith in rw (later, same) refl

pending-set :
    (s : ChatShared) (m : Message)
    → IsRing s
    → window s.msg_head (suc (size s)) (set s.messages s.msg_tail m) ≡ pending s ++ m ∷ []
pending-set s m r =
    let end : (s.msg_head + size s) % max_messages ≡ s.msg_tail =
      omega (arith, r.head_within, r.tail_within) in
    rw
      (
        window-snoc s.msg_head (size s) (set s.messages s.msg_tail m),
        window-set s.msg_head (size s) s.msg_tail s.messages m (sym end) (omega arith),
        end,
        get_or-set s.messages s.msg_tail m no_message (omega (arith, r.slots, r.tail_within)),
      )
      refl

-- `post` is the insertion into a queue of 99 messages: the message comes last, after the ones that
-- wait, which are not touched; a full ring takes nothing.
pub post-pending :
    (now : ℤ) (id : Option ℤ) (sender content : Text) (s : ChatShared)
    → IsRing s
    → pending (post now id sender content s) ≡ (
        if size s == 99
        then pending s
        else pending s
          ++ record {
            id = id_or (get_or s.messages s.msg_tail no_message).id id;
            timestamp = now;
            sender_name = sender;
            content = content;
          }
            ∷ [])
unfolding post
post-pending now id sender content s r =
    elim (Bool-cases ((s.msg_tail + 1) % max_messages == s.msg_head)) [
      | inl full ↦
          let all : (size s == 99) ≡ true = ground (arith, full, r.head_within, r.tail_within) in
          rw (full, all) refl
      | inr room ↦
          let some_left : (size s == 99) ≡ false =
            ground (arith, room, r.head_within, r.tail_within) in
          let grown : ((s.msg_tail + 1) % max_messages + max_messages - s.msg_head) % max_messages
              ≡ suc (size s) =
            ground (arith, room, r.head_within, r.tail_within) in
          rw (room, some_left, grown, pending-set s _ r) refl
    ]
