-- ===== src/QueueChat/ClientSide/Users.antt =====
-- What the server of lab13 sends, and the window of users of the client.
use eltex_school.Base.{
  ℕ, ◌≡◌, refl, subst, sym, Bool, true, false, Option, none, some, List, [], ◌∷◌, ◌++◌, Bool-cases,
  inl, inr, leb, length, get_or, set, ◌&&◌, ◌||◌, not,
}
use eltex_school.Base.Int.{ℤ, pos, eq_ℤ}
use eltex_school.Text.{Text, codes, starts_with, str_eq, scan_int}
use eltex_school.QueueChat.{
  Client, no_client, Server, Sent, sent, unlinked, Result, Junk, handle, dispatch, guarded,
  two_fields, number_and_text, send_to_all, send_list, list_users, broadcast_user_list, register_at,
  message_from, quit_at, find_free_slot, find_client_by_id, int_or,
}
use eltex_school.QueueChat.Delivery.{Holds}
use eltex_school.QueueChat.ClientSide.{Session, Sizes, receive, showing, add_message}

-- A text that is no list of users for the client.
abbrev NoList : Sent → Type 0
NoList (sent q t) = starts_with t (codes "USER_LIST|") ≡ false
NoList (unlinked t) = Unit {0}

abbrev AllNoList : List Sent → Type 0
AllNoList [] = Unit {0}
AllNoList (x ∷ xs) = NoList x × AllNoList xs

append-AllNoList : (xs ys : List Sent) → AllNoList xs → AllNoList ys → AllNoList (xs ++ ys)
append-AllNoList [] ys h k = k
append-AllNoList (x ∷ xs) ys h k = (h.0, append-AllNoList xs ys h.1 k)

send_to_all-AllNoList :
    (msg : Text) (sender_id : ℤ) (incl : Bool) (cs : List Client)
    → starts_with msg (codes "USER_LIST|") ≡ false
    → AllNoList (send_to_all msg sender_id incl cs)
unfolding send_to_all
send_to_all-AllNoList msg sender_id incl [] h = tt
send_to_all-AllNoList msg sender_id incl (c ∷ cs) h =
    let rest = send_to_all-AllNoList msg sender_id incl cs h in
    elim (Bool-cases (c.active && (incl || not (eq_ℤ (pos c.id) sender_id)))) [
      | inl hit ↦ rw hit (h, rest)
      | inr miss ↦ rw miss rest
    ]

send_list-AllNoList :
    (msg : Text) (cs : List Client)
    → starts_with msg (codes "USER_LIST|") ≡ false
    → AllNoList (send_list msg cs)
unfolding send_list
send_list-AllNoList msg [] h = tt
send_list-AllNoList msg (c ∷ cs) h =
    let rest = send_list-AllNoList msg cs h in
    elim (Bool-cases c.active) [ inl on ↦ rw on (h, rest) | inr off ↦ rw off rest ]

broadcast_user_list-AllNoList : (cs : List Client) → AllNoList (broadcast_user_list cs)
unfolding broadcast_user_list starts_with
broadcast_user_list-AllNoList cs =
    send_list-AllNoList (codes "[SERVER] Users in chat: " ++ list_users cs) cs refl

-- A text for all but one, and the list of users for all.
news-AllNoList :
    (msg : Text) (id : ℤ) (cs : List Client)
    → starts_with msg (codes "USER_LIST|") ≡ false
    → AllNoList (send_to_all msg id false cs ++ broadcast_user_list cs)
news-AllNoList msg id cs h =
    append-AllNoList (send_to_all msg id false cs) (broadcast_user_list cs)
      (send_to_all-AllNoList msg id false cs h) (broadcast_user_list-AllNoList cs)

abbrev ResultNoList : Result → Type 0
ResultNoList none = Unit {0}
ResultNoList (some r) = AllNoList r.1

guarded-ResultNoList : (b : Bool) (r : Result) → ResultNoList r → ResultNoList (guarded b r)
guarded-ResultNoList true r h = tt
guarded-ResultNoList false r h = h

register_at-ResultNoList :
    (opened : Option ℕ) (name queue_name : Text) (s : Server) (slot : Option ℕ)
    → ResultNoList (register_at opened name queue_name s slot)
unfolding register_at starts_with
register_at-ResultNoList opened name queue_name s none = tt
register_at-ResultNoList none name queue_name s (some slot) = tt
register_at-ResultNoList (some queue) name queue_name s (some slot) =
    let new : Client = record {
      name = name;
      queue_name = queue_name;
      queue = some queue;
      active = true;
      id = s.next_id;
    } in
    (
      refl,
      news-AllNoList (codes "[SERVER] " ++ name ++ codes " joined the chat") (pos s.next_id)
          (set s.clients slot new) refl,
    )

message_from-ResultNoList :
    (sender_id : ℤ) (msg : Text) (s : Server) (slot : Option ℕ)
    → ResultNoList (message_from sender_id msg s slot)
unfolding message_from starts_with
message_from-ResultNoList sender_id msg s none = tt
message_from-ResultNoList sender_id msg s (some slot) =
    let temp = codes "[" ++ (get_or s.clients slot no_client).name ++ codes "] " ++ msg in
    guarded-ResultNoList (leb 512 (length temp))
      (some (s, send_to_all temp sender_id false s.clients))
      (send_to_all-AllNoList temp sender_id false s.clients refl)

quit_at-ResultNoList :
    (slot_id : ℤ) (s : Server) (slot : Option ℕ) → ResultNoList (quit_at slot_id s slot)
unfolding quit_at starts_with
quit_at-ResultNoList slot_id s none = tt
quit_at-ResultNoList slot_id s (some slot) =
    let c = get_or s.clients slot no_client in
    (
      tt,
      news-AllNoList (codes "[SERVER] " ++ c.name ++ codes " left the chat") slot_id
          (set s.clients slot (record c { active = false })) refl,
    )

dispatch-ResultNoList :
    (opened : Option ℕ) (j : Junk) (cmd body : Text) (s : Server)
    → ResultNoList (dispatch opened j cmd body s)
unfolding dispatch
dispatch-ResultNoList opened j cmd body s = elim (Bool-cases (str_eq cmd (codes "REG"))) [
  | inl reg ↦
      let fields = two_fields body j.name_queue in
      rw reg (
        guarded-ResultNoList (leb 32 (length fields.0) || leb 64 (length fields.1))
          (register_at opened fields.0 fields.1 s (find_free_slot 0 s.clients))
          (register_at-ResultNoList opened fields.0 fields.1 s (find_free_slot 0 s.clients)))
  | inr reg ↦ elim (Bool-cases (str_eq cmd (codes "MSG"))) [
    | inl msg ↦
        let m = number_and_text j body in
        rw (reg, msg) (message_from-ResultNoList m.0 m.1 s (find_client_by_id m.0 0 s.clients))
    | inr msg ↦ elim (Bool-cases (str_eq cmd (codes "QUIT"))) [
      | inl quit ↦
          let id = int_or j.number (scan_int body).0 in
          rw (reg, msg, quit) (quit_at-ResultNoList id s (find_client_by_id id 0 s.clients))
      | inr quit ↦ rw (reg, msg, quit) tt
    ]
  ]
]

handle-ResultNoList :
    (opened : Option ℕ) (j : Junk) (buffer : Text) (s : Server)
    → ResultNoList (handle opened j buffer s)
unfolding handle
handle-ResultNoList opened j buffer s =
    let fields = two_fields buffer j.cmd_data in
    guarded-ResultNoList (leb 10 (length fields.0)) (dispatch opened j fields.0 fields.1 s)
      (dispatch-ResultNoList opened j fields.0 fields.1 s)

of_Holds : (x : Sent) (xs : List Sent) → AllNoList xs → Holds x xs → NoList x
of_Holds x [] h k = absurd (k refl)
of_Holds x (y ∷ ys) h (inl e) = subst (λ z. NoList z) (sym e) h.0
of_Holds x (y ∷ ys) h (inr k) = of_Holds x ys h.1 k

receive-keeps_list :
    (w : Sizes) (t : Text) (c : Session)
    → starts_with t (codes "USER_LIST|") ≡ false
    → (receive w t c).session.user_list ≡ c.user_list
unfolding receive showing add_message
receive-keeps_list w t c h = elim (Bool-cases (starts_with t (codes "OK|"))) [
  | inl ok ↦ rw ok refl
  | inr ok ↦ rw (ok, h) refl
]

-- Whatever request the server takes, no message that it then sends to any queue changes the list of
-- users of the client that receives it, so the window of users is never filled.
pub users_never_shown :
    (opened : Option ℕ) (j : Junk) (request : Text) (s s' : Server) (told : List Sent)
    (q : Option ℕ) (t : Text) (w : Sizes) (c : Session)
    → handle opened j request s ≡ some (s', told)
    → Holds (sent q t) told
    → (receive w t c).session.user_list ≡ c.user_list
users_never_shown opened j request s s' told q t w c e k = receive-keeps_list w t c (
    of_Holds (sent q t) told
      (subst (λ r. ResultNoList r) e (handle-ResultNoList opened j request s)) k)
