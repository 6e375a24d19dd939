-- ===== src/Chat.antt =====
-- lab14/chat_client.c and lab14/chat_server.c: the shared memory of the chat, and what the programs
-- do to it while they hold the mutex. Readings of `time` are arguments.
pub mod Ring
pub mod Log
mod Tests
pub mod Users
pub mod Input
pub mod Screen
pub mod Members
pub mod Receive
use eltex_school.Base.{
  ℕ, ◌+◌, ◌-◌, ◌%◌, Bool, true, false, ◌&&◌, Option, none, some, List, [], ◌∷◌, ◌++◌, ltb, ◌==◌,
  if◌then◌else◌, length, set, get_or, take, replicate,
}
use eltex_school.Base.Int.{ℤ, pos, negsuc, ◌+ℤ◌, ◌-ℤ◌, eq_ℤ, ltb_ℤ}
use eltex_school.Text.{Text, codes, str_eq}

abbrev pub max_clients : ℕ
max_clients = 20

abbrev pub max_msg_size : ℕ
max_msg_size = 512

abbrev pub max_name_len : ℕ
max_name_len = 32

abbrev pub max_messages : ℕ
max_messages = 100

pub record Client : Type 0 where
  pub id : ℤ
  pub name : Text
  pub active : Bool
  pub join_time : ℤ

pub record Message : Type 0 where
  pub id : ℤ
  pub timestamp : ℤ
  pub sender_name : Text
  pub content : Text

-- `posted` counts the calls of `sem_post (msg_count)`.
pub record ChatShared : Type 0 where
  pub client_count : ℤ
  pub next_id : ℤ
  pub msg_count : ℕ
  pub msg_head : ℕ
  pub msg_tail : ℕ
  pub clients : List Client
  pub messages : List Message
  pub user_list : Text
  pub posted : ℕ

abbrev pub no_client : Client
no_client = record { id = pos 0; name = []; active = false; join_time = pos 0 }

abbrev pub no_message : Message
no_message = record { id = pos 0; timestamp = pos 0; sender_name = []; content = [] }

-- What the server writes before it lets clients in.
unfoldable pub init : ChatShared
init = record {
  client_count = pos 0;
  next_id = pos 1;
  msg_count = 0;
  msg_head = 0;
  msg_tail = 0;
  clients = replicate max_clients no_client;
  messages = replicate max_messages no_message;
  user_list = [];
  posted = 0;
}

abbrev pub id_or : ℤ → Option ℤ → ℤ
id_or old none = old
id_or old (some id) = id

-- The slot at the tail is filled, unless the ring is full. A message of `cleanup` leaves the `id` of
-- the slot as it was.
unfoldable pub post : (now : ℤ) → Option ℤ → (sender content : Text) → ChatShared → ChatShared
post now id sender content s =
    let next = (s.msg_tail + 1) % max_messages in
    let old = get_or s.messages s.msg_tail no_message in
    let new : Message = record {
      id = id_or old.id id;
      timestamp = now;
      sender_name = sender;
      content = content;
    } in
    if next == s.msg_head then s else record s {
      messages = set s.messages s.msg_tail new;
      msg_tail = next;
      msg_count = s.msg_count + 1;
      posted = s.posted + 1;
    }

-- The text that `snprintf` leaves in a buffer of `MAX_MSG_SIZE` bytes.
abbrev pub clipped : Text → Text
clipped = take (max_msg_size - 1)

-- The first loop of registration: is the name in use?
unfoldable pub already_exists : Text → List Client → Bool
already_exists my_name [] = false
already_exists my_name (c ∷ cs) =
    let later = already_exists my_name cs in
    if c.active && str_eq c.name my_name then true else later

-- The second: the first slot, from `i` on, that is not active.
unfoldable pub free_slot : ℕ → List Client → Option ℕ
free_slot i [] = none
free_slot i (c ∷ cs) = let later = free_slot (i + 1) cs in if c.active then later else some i

-- The third: the names of the active clients, with commas between them.
unfoldable pub list_users : (temp : Text) → List Client → Text
list_users temp [] = temp
list_users temp (c ∷ cs) =
    let comma = if ltb 0 (length temp) then temp ++ b',' ∷ [] else temp in
    list_users (if c.active then comma ++ c.name else temp) cs

-- A client in the slot that was found.
unfoldable pub enter : (now : ℤ) → Text → ℕ → ChatShared → ChatShared
unfolding post list_users
enter now my_name slot s =
    let new : Client = record { id = s.next_id; name = my_name; active = true; join_time = now } in
    let clients' = set s.clients slot new in
    post now (some (negsuc 0)) (codes "SYSTEM") (clipped (my_name ++ codes " joined the chat"))
      (record s {
        next_id = s.next_id +ℤ pos 1;
        clients = clients';
        client_count = s.client_count +ℤ pos 1;
        user_list = list_users [] clients';
      })

pub data Registered : Type 0 where
  name_in_use chat_full : Registered
  registered : (client_id : ℤ) → Registered

unfoldable pub register_at : (now : ℤ) → Text → ChatShared → Option ℕ → ChatShared × Registered
unfolding enter
register_at now my_name s none = (s, chat_full)
register_at now my_name s (some slot) = (enter now my_name slot s, registered s.next_id)

-- What `main` of a client does under the mutex.
unfoldable pub register : (now : ℤ) → Text → ChatShared → ChatShared × Registered
unfolding register_at
register now my_name s =
    if already_exists my_name s.clients
    then (s, name_in_use)
    else register_at now my_name s (free_slot 0 s.clients)

-- A line of `send_messages` that is not empty.
unfoldable pub say : (now client_id : ℤ) → (my_name input : Text) → ChatShared → ChatShared
unfolding post
say now client_id my_name input s = post now (some client_id) my_name input s

-- The loop of `cleanup`: the first active client of this `id`.
unfoldable pub find_active : ℤ → ℕ → List Client → Option ℕ
find_active client_id i [] = none
find_active client_id i (c ∷ cs) =
    let later = find_active client_id (i + 1) cs in
    if c.active && eq_ℤ c.id client_id then some i else later

unfoldable pub leave_at : (now : ℤ) → Text → ChatShared → Option ℕ → ChatShared
unfolding post
leave_at now my_name s none = s
leave_at now my_name s (some i) =
    let c = get_or s.clients i no_client in
    post now none (codes "SYSTEM") (clipped (my_name ++ codes " left the chat")) (record s {
      clients = set s.clients i (record c { active = false });
      client_count = s.client_count -ℤ pos 1;
    })

-- What `cleanup` does under the mutex; a client that is not registered has a negative `client_id`.
unfoldable pub leave : (now client_id : ℤ) → Text → ChatShared → ChatShared
unfolding leave_at
leave now client_id my_name s =
    if ltb_ℤ client_id (pos 0)
    then s
    else leave_at now my_name s (find_active client_id 0 s.clients)

-- `cleanup` of the server: every client is marked as gone.
unfoldable pub disconnect_all : List Client → List Client
disconnect_all [] = []
disconnect_all (c ∷ cs) = record c { active = false } ∷ disconnect_all cs

-- What the clients do under the mutex, one at a time, in any order.
pub data Action : Type 0 where
  joins : (now : ℤ) → Text → Action
  says : (now client_id : ℤ) → (my_name input : Text) → Action
  leaves : (now client_id : ℤ) → Text → Action

unfoldable pub act : Action → ChatShared → ChatShared
unfolding register say leave
act (joins now my_name) s = (register now my_name s).0
act (says now client_id my_name input) s = say now client_id my_name input s
act (leaves now client_id my_name) s = leave now client_id my_name s

unfoldable pub run : List Action → ChatShared → ChatShared
unfolding act
run [] s = s
run (a ∷ rest) s = run rest (act a s)
