-- ===== src/QueueChat.antt =====
-- lab13/chat_server.c: the chat over message queues. What `mq_open` returns is an argument, what is
-- sent is a list of queues with texts; `mq_receive` brings a text without a NUL before its end.
pub mod Roster
pub mod Delivery
pub mod ClientSide
mod Tests
use eltex_school.Base.{
  ℕ, zero, suc, ◌+◌, Bool, true, false, ◌&&◌, ◌||◌, not, Option, none, some, List, [], ◌∷◌, ◌++◌,
  leb, ◌==◌, if◌then◌else◌, length, set, get_or,
}
use eltex_school.Base.Int.{ℤ, pos, eq_ℤ}
use eltex_school.Text.{Text, codes, str_eq, scan_int, show_int}

abbrev pub max_clients : ℕ
max_clients = 10

-- `queue` is `none` for -1.
pub record Client : Type 0 where
  pub name : Text
  pub queue_name : Text
  pub queue : Option ℕ
  pub active : Bool
  pub id : ℕ

abbrev pub no_client : Client
no_client = record { name = []; queue_name = []; queue = none; active = false; id = 0 }

pub record Server : Type 0 where
  pub clients : List Client
  pub next_id : ℕ

pub data Sent : Type 0 where
  sent : (queue : Option ℕ) → Text → Sent
  unlinked : (queue_name : Text) → Sent

-- `cleanup`: the active clients are told, and their queues removed.
unfoldable pub cleanup : List Client → List Sent
cleanup [] = []
cleanup (c ∷ cs) =
    let rest = cleanup cs in
    if c.active
    then sent c.queue (codes "[SERVER] Server shutting down.") ∷ unlinked c.queue_name ∷ rest
    else rest

unfoldable pub send_to_all :
    (msg : Text) → (sender_id : ℤ) → (include_sender : Bool) → List Client → List Sent
send_to_all msg sender_id include_sender [] = []
send_to_all msg sender_id include_sender (c ∷ cs) =
    let rest = send_to_all msg sender_id include_sender cs in
    if c.active && (include_sender || not (eq_ℤ (pos c.id) sender_id))
    then sent c.queue msg ∷ rest
    else rest

-- The two loops of `broadcast_user_list`.
unfoldable pub list_users : List Client → Text
list_users [] = []
list_users (c ∷ cs) = let rest = list_users cs in if c.active then c.name ++ b' ' ∷ rest else rest

unfoldable pub send_list : Text → List Client → List Sent
send_list msg [] = []
send_list msg (c ∷ cs) =
    let rest = send_list msg cs in if c.active then sent c.queue msg ∷ rest else rest

unfoldable pub broadcast_user_list : List Client → List Sent
unfolding list_users send_list
broadcast_user_list cs = send_list (codes "[SERVER] Users in chat: " ++ list_users cs) cs

unfoldable pub find_free_slot : ℕ → List Client → Option ℕ
find_free_slot i [] = none
find_free_slot i (c ∷ cs) =
    let later = find_free_slot (i + 1) cs in if not c.active then some i else later

unfoldable pub find_client_by_id : ℤ → ℕ → List Client → Option ℕ
find_client_by_id id i [] = none
find_client_by_id id i (c ∷ cs) =
    let later = find_client_by_id id (i + 1) cs in
    if c.active && eq_ℤ (pos c.id) id then some i else later

-- The bytes up to one that `stops`, and the rest: the conversion `%[^…]` fails where there are none.
unfoldable pub span : (stops : ℕ → Bool) → Text → Text × Text
span stops [] = ([], [])
span stops (c ∷ s) =
    let rest = span stops s in if stops c then ([], c ∷ s) else (c ∷ rest.0, rest.1)

abbrev pub kept : (old new : Text) → Text
kept old [] = old
kept old (c ∷ s) = c ∷ s

-- The second field, where the literal `|` comes first and the first field was read.
abbrev pub after_bar : (old first rest : Text) → Text
after_bar old [] rest = old
after_bar old (c ∷ first) [] = old
after_bar old (c ∷ first) (d ∷ rest) =
    if d == b'|' then kept old (span (λ c. c == b'\n') rest).0 else old

-- `sscanf (…, "%[^|]|%[^\n]", …)` into two variables that hold texts already.
unfoldable pub two_fields : Text → (old : Text × Text) → Text × Text
unfolding span
two_fields s old =
    let first = span (λ c. c == b'|') s in (kept old.0 first.0, after_bar old.1 first.0 first.1)

abbrev pub int_or : ℤ → Option ℤ → ℤ
int_or old none = old
int_or old (some n) = n

-- What the locals hold before `sscanf` fills them.
pub record Junk : Type 0 where
  pub cmd_data : Text × Text
  pub name_queue : Text × Text
  pub number : ℤ
  pub msg : Text

-- `none` is a write outside an array, which C leaves undefined.
abbrev pub Result : Type 0
Result = Option (Server × List Sent)

abbrev pub guarded : Bool → Result → Result
guarded overflow r = if overflow then none else r

unfoldable pub register_at : (opened : Option ℕ) → Text → Text → Server → Option ℕ → Result
unfolding send_to_all broadcast_user_list
register_at opened name queue_name s none = some (s, [])
register_at none name queue_name s (some slot) = some (
  record {
    clients = set s.clients slot (record {
      name = name;
      queue_name = queue_name;
      queue = none;
      active = false;
      id = s.next_id;
    });
    next_id = s.next_id + 1;
  },
  [],
)
register_at (some queue) name queue_name s (some slot) =
    let new : Client = record {
      name = name;
      queue_name = queue_name;
      queue = some queue;
      active = true;
      id = s.next_id;
    } in
    let clients' = set s.clients slot new in
    some (
      record { clients = clients'; next_id = s.next_id + 1 },
      sent (some queue) (codes "OK|" ++ show_int (pos s.next_id))
            ∷ send_to_all (codes "[SERVER] " ++ name ++ codes " joined the chat") (pos s.next_id)
                false clients'
          ++ broadcast_user_list clients',
    )

unfoldable pub message_from : (sender_id : ℤ) → Text → Server → Option ℕ → Result
unfolding send_to_all
message_from sender_id msg s none = some (s, [])
message_from sender_id msg s (some slot) =
    let c = get_or s.clients slot no_client in
    let temp = codes "[" ++ c.name ++ codes "] " ++ msg in
    guarded (leb 512 (length temp)) (some (s, send_to_all temp sender_id false s.clients))

unfoldable pub quit_at : (slot_id : ℤ) → Server → Option ℕ → Result
unfolding send_to_all broadcast_user_list
quit_at slot_id s none = some (s, [])
quit_at slot_id s (some slot) =
    let c = get_or s.clients slot no_client in
    let clients' = set s.clients slot (record c { active = false }) in
    some (
      record s { clients = clients' },
      unlinked c.queue_name
            ∷ send_to_all (codes "[SERVER] " ++ c.name ++ codes " left the chat") slot_id false
                clients'
          ++ broadcast_user_list clients',
    )

-- `sscanf (body, "%d|%[^\n]", &sender_id, msg)`.
unfoldable pub number_and_text : Junk → Text → ℤ × Text
unfolding span
number_and_text j body =
    let number = scan_int body in
    (
      int_or j.number number.0,
      elim number.0 [ none ↦ j.msg | some n ↦ after_bar j.msg (b'0' ∷ []) number.1 ],
    )

-- A message to the server, by its first field.
unfoldable pub dispatch : (opened : Option ℕ) → Junk → (cmd body : Text) → Server → Result
unfolding two_fields number_and_text register_at message_from quit_at
dispatch opened j cmd body s =
    if str_eq cmd (codes "REG")
    then (let fields = two_fields body j.name_queue in
        guarded (leb 32 (length fields.0) || leb 64 (length fields.1))
          (register_at opened fields.0 fields.1 s (find_free_slot 0 s.clients)))
    else if str_eq cmd (codes "MSG")
    then (let m = number_and_text j body in
        message_from m.0 m.1 s (find_client_by_id m.0 0 s.clients))
    else if str_eq cmd (codes "QUIT")
    then (let slot_id = int_or j.number (scan_int body).0 in
        quit_at slot_id s (find_client_by_id slot_id 0 s.clients))
    else some (s, [])

-- One round of `handle_clients`.
unfoldable pub handle : (opened : Option ℕ) → Junk → Text → Server → Result
unfolding dispatch
handle opened j buffer s =
    let fields = two_fields buffer j.cmd_data in
    guarded (leb 10 (length fields.0)) (dispatch opened j fields.0 fields.1 s)
