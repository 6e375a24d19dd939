-- ===== src/Chat/Log.antt =====
-- The ring over the life of the chat: no code moves `msg_head`.
use eltex_school.Base.{
  ℕ, zero, suc, ◌+◌, ◌-◌, ◌%◌, ◌≤◌, ◌<◌, ◌≡◌, refl, ◌∙◌, Option, none, some, List, [], ◌∷◌, ◌++◌,
  arith, length, get_or, get_or-set_ne, length-set, length-replicate, ◌==◌, Bool-cases, inl, inr,
  Option-cases,
}
use eltex_school.Base.Int.{ℤ, pos, negsuc, ltb_ℤ}
use eltex_school.Text.{Text, codes}
use eltex_school.Chat.{
  max_messages, Client, no_message, ChatShared, clipped, init, post, enter, register, register_at,
  free_slot, already_exists, say, leave, leave_at, find_active, Action, joins, says, leaves, act,
  run,
}
use eltex_school.Chat.Ring.{window, pending}

pub record IsLog (s : ChatShared) : Type 0 where
  pub slots : length s.messages ≡ max_messages
  pub from_start : s.msg_head ≡ 0
  pub tail : s.msg_tail ≡ s.msg_count
  pub posted : s.posted ≡ s.msg_count
  pub few : s.msg_count < max_messages

-- `t` comes after `s`: it has its messages, in their places.
pub record Kept (s t : ChatShared) : Type 0 where
  pub valid : IsLog t
  pub grown : s.msg_count ≤ t.msg_count
  pub kept :
      (i : ℕ) → i < s.msg_count → get_or t.messages i no_message ≡ get_or s.messages i no_message

post-Kept :
    (now : ℤ) (id : Option ℤ) (sender content : Text) (s : ChatShared)
    → IsLog s
    → Kept s (post now id sender content s)
unfolding post
post-Kept now id sender content s v =
    elim (Bool-cases ((s.msg_tail + 1) % max_messages == s.msg_head)) [
      | inl full ↦ rw full (record { valid = v; grown = omega arith; kept = λ i h. refl })
      | inr room ↦ rw room (record {
        valid = record {
          slots = omega (arith, v.slots, length-set s.messages s.msg_tail _);
          from_start = v.from_start;
          tail = ground (arith, room, v.from_start, v.tail, v.few);
          posted = omega (arith, v.posted);
          few = ground (arith, room, v.from_start, v.tail, v.few);
        };
        grown = omega arith;
        kept = λ i h.
            get_or-set_ne s.messages s.msg_tail i _ no_message (λ q. omega (arith, v.tail, h, q));
      })
    ]

Kept-trans : (s t u : ChatShared) → Kept s t → Kept t u → Kept s u
Kept-trans s t u p q = record {
  valid = q.valid;
  grown = omega (arith, p.grown, q.grown);
  kept = λ i h. q.kept i (omega (arith, h, p.grown)) ∙ p.kept i h;
}

Kept-refl : (s : ChatShared) → IsLog s → Kept s s
Kept-refl s v = record { valid = v; grown = omega arith; kept = λ i h. refl }

-- A change of the other fields.
Kept-clients :
    (s : ChatShared) (n k : ℤ) (cs : List Client) (u : Text)
    → IsLog s
    → Kept s (record s { client_count = n; next_id = k; clients = cs; user_list = u })
Kept-clients s n k cs u v = record {
  valid = record {
    slots = v.slots;
    from_start = v.from_start;
    tail = v.tail;
    posted = v.posted;
    few = v.few;
  };
  grown = omega arith;
  kept = λ i h. refl;
}

module _ (now : ℤ) (my_name : Text) (s : ChatShared) (v : IsLog s) where
  enter-Kept : (slot : ℕ) → Kept s (enter now my_name slot s)
  unfolding enter
  enter-Kept slot =
      let c = Kept-clients s _ _ _ _ v in
      Kept-trans s _ _ c (
        post-Kept now (some (negsuc 0)) (codes "SYSTEM")
          (clipped (my_name ++ codes " joined the chat")) _ c.valid)

  register-Kept : Kept s (register now my_name s).0
  unfolding register
  register-Kept = elim (Bool-cases (already_exists my_name s.clients)) [
    | inl taken ↦ rw taken (Kept-refl s v)
    | inr new ↦ elim (Option-cases (free_slot 0 s.clients)) [
      | inl q ↦ rw (new, q) (unfold register_at in Kept-refl s v)
      | inr (slot, q) ↦ rw (new, q) (unfold register_at in enter-Kept slot)
    ]
  ]

  leave_at-Kept : (o : Option ℕ) → Kept s (leave_at now my_name s o)
  unfolding leave_at
  leave_at-Kept none = Kept-refl s v
  leave_at-Kept (some i) =
      let c = Kept-clients s _ _ _ _ v in
      Kept-trans s _ _ c (
        post-Kept now none (codes "SYSTEM") (clipped (my_name ++ codes " left the chat")) _ c.valid)

  leave-Kept : (client_id : ℤ) → Kept s (leave now client_id my_name s)
  unfolding leave
  leave-Kept client_id = elim (Bool-cases (ltb_ℤ client_id (pos 0))) [
    | inl e ↦ rw e (Kept-refl s v)
    | inr e ↦ rw e (leave_at-Kept (find_active client_id 0 s.clients))
  ]

act-Kept : (a : Action) (s : ChatShared) → IsLog s → Kept s (act a s)
unfolding act say
act-Kept (joins now my_name) s v = register-Kept now my_name s v
act-Kept (says now client_id my_name input) s v = post-Kept now (some client_id) my_name input s v
act-Kept (leaves now client_id my_name) s v = leave-Kept now my_name s v client_id

-- From a valid log, whatever clients join, say and leave, in any order: the messages that were
-- accepted stay in their slots, the semaphore counts them, and there are at most 99.
pub run-Kept : (actions : List Action) (s : ChatShared) → IsLog s → Kept s (run actions s)
unfolding run
run-Kept [] s v = Kept-refl s v
run-Kept (a ∷ rest) s v =
    let first = act-Kept a s v in
    Kept-trans s (act a s) _ first (run-Kept rest (act a s) first.valid)

pub init-IsLog : IsLog init
unfolding init
init-IsLog = record {
  slots = length-replicate max_messages no_message;
  from_start = refl;
  tail = refl;
  posted = refl;
  few = omega arith;
}

pub window-Kept :
    (s t : ChatShared) (p n : ℕ)
    → Kept s t
    → p + n ≤ s.msg_count
    → IsLog s
    → window p n t.messages ≡ window p n s.messages
window-Kept s t p zero k h v = refl
window-Kept s t p (suc n) k h v =
    let here : p % max_messages ≡ p = omega (arith, h, v.few) in
    rw (here, k.kept p (omega (arith, h)), window-Kept s t (p + 1) n k (omega (arith, h)) v) refl

pub pending-IsLog : (s : ChatShared) → IsLog s → pending s ≡ window 0 s.msg_count s.messages
pending-IsLog s v =
    let count : (s.msg_count + max_messages - 0) % max_messages ≡ s.msg_count =
      omega (arith, v.few) in
    rw (v.from_start, v.tail, count) refl

-- In a valid log of 99 messages the chat is silent for ever: whatever clients join, say and leave,
-- not one further message is accepted.
pub run_full :
    (actions : List Action) (s : ChatShared)
    → IsLog s
    → s.msg_count ≡ 99
    → pending (run actions s) ≡ pending s
run_full actions s v full =
    let k = run-Kept actions s v in
    let count : (run actions s).msg_count ≡ s.msg_count =
      omega (arith, full, k.valid.few, k.grown) in
    rw
      (
        pending-IsLog (run actions s) k.valid,
        pending-IsLog s v,
        count,
        window-Kept s (run actions s) 0 s.msg_count k (omega arith) v,
      )
      refl
