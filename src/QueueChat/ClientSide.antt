-- ===== src/QueueChat/ClientSide.antt =====
-- lab13/chat_client.c: the client of the chat over message queues. What it sends is a list of texts
-- for the queue of the server; what stands on the screen is a list of `Shown`.
pub mod Fields
pub mod Register
pub mod Talk
pub mod Users
mod Tests
use eltex_school.Base.{
  ℕ, zero, suc, ◌+◌, ◌-◌, Bool, true, false, Option, none, some, List, [], ◌∷◌, ◌++◌, ltb, leb,
  ◌==◌, if◌then◌else◌, length, drop,
}
use eltex_school.Base.Int.{ℤ, pos, negsuc}
use eltex_school.Text.{Text, codes, starts_with, scan_int, show_int, show_nat, fgets, cut_at}
use eltex_school.QueueChat.{int_or}
use eltex_school.Chat.Screen.{cut, user_rows}
use eltex_school.Chat.Input.{Edit, typing, entered, escaped, edit}

abbrev pub max_msg_size : ℕ
max_msg_size = 512

-- A row of the window of messages with its text, and the rows of the window of users.
pub data Shown : Type 0 where
  message_at : (row : ℕ) → (text : Option Text) → (scrolled : Bool) → Shown
  users : List Text → Shown

-- The globals; -1 is no number yet.
pub record Session : Type 0 where
  pub client_id : ℤ
  pub running : Bool
  pub name : Text
  pub msg_lines : ℕ
  pub user_list : Text

-- What a step of the client leaves: what it sent, and what it showed.
pub record Done : Type 0 where
  pub session : Session
  pub posted : List Text
  pub shown : List Shown

-- The sizes of the windows: `maxy` of the screen, and those of `msg_win`, of at least 3 rows.
pub record Sizes : Type 0 where
  pub screen_rows : ℕ
  pub rows : ℕ
  pub columns : ℕ

unfoldable pub add_message : Sizes → Text → Session → Session × Shown
unfolding cut
add_message w msg s =
    let full = leb (w.rows - 2) (s.msg_lines + 1) in
    (
      record s { msg_lines = if full then w.rows - 3 else s.msg_lines + 1 },
      message_at (s.msg_lines + 1) (cut w.columns msg) full,
    )

unfoldable pub showing : Sizes → Text → Session → Done
unfolding add_message
showing w msg s =
    let r = add_message w msg s in record { session = r.0; posted = []; shown = r.1 ∷ [] }

-- The windows are blanked, too.
unfoldable pub refresh_screen : Session → Session
refresh_screen s = record s { msg_lines = 0 }

unfoldable pub update_users_window : Sizes → Text → Shown
unfolding user_rows
update_users_window w user_list = users (user_rows (w.screen_rows - 3) user_list)

-- One message in `receive_messages`.
unfoldable pub receive : Sizes → (buffer : Text) → Session → Done
unfolding showing update_users_window
receive w buffer s =
    if starts_with buffer (codes "OK|")
    then showing w (codes "[SYSTEM] Welcome to chat!")
        (record s { client_id = int_or s.client_id (scan_int (drop 3 buffer)).0 })
    else if starts_with buffer (codes "USER_LIST|")
    then record {
      session = record s { user_list = drop 10 buffer };
      posted = [];
      shown = update_users_window w (drop 10 buffer) ∷ [];
    }
    else showing w buffer s

-- What `send_messages` sends for a line, and what it shows for it.
unfoldable pub message : (client_id : ℤ) → (input : Text) → Text
message client_id input = codes "MSG|" ++ (show_int client_id ++ b'|' ∷ input)

unfoldable pub local_message : (name input : Text) → Text
local_message name input = codes "[" ++ name ++ codes "] " ++ input

-- A line that is entered; `none` is a write outside `temp` or `local_temp`.
unfoldable pub send_line : Sizes → (input : Text) → Session → Option Done
unfolding message local_message add_message
send_line w [] s = some (record { session = s; posted = []; shown = [] })
send_line w (c ∷ input) s =
    let temp = message s.client_id (c ∷ input) in
    let local_temp = local_message s.name (c ∷ input) in
    if leb max_msg_size (length temp)
    then none
    else if leb max_msg_size (length local_temp)
    then none
    else (let r = add_message w local_temp s in
        some (record { session = r.0; posted = temp ∷ []; shown = r.1 ∷ [] }))

-- `cleanup`, but for the closing of queues and windows.
unfoldable pub quit_message : (client_id : ℤ) → List Text
quit_message (negsuc n) = []
quit_message (pos n) = (codes "QUIT|" ++ show_int (pos n)) ∷ []

unfoldable pub cleanup : Session → Done
unfolding quit_message
cleanup s = record {
  session = record s { running = false };
  posted = quit_message s.client_id;
  shown = [];
}

-- What the inner loop of `send_messages` ends with.
unfoldable pub finish_line : Sizes → Edit → Session → Option Done
unfolding send_line cleanup
finish_line w (typing input) s = some (record { session = s; posted = []; shown = [] })
finish_line w (entered input) s = send_line w input s
finish_line w escaped s = some (cleanup s)

-- A round of `send_messages` with the keys that are pressed in it.
unfoldable pub send_round : Sizes → List (Option ℕ) → Session → Option Done
unfolding finish_line edit
send_round w keys s = finish_line w (edit keys (typing [])) s

-- `name` as `main` reads it; `none` where `main` gives up.
unfoldable pub nonempty : Text → Option Text
nonempty [] = none
nonempty (c ∷ name) = some (c ∷ name)

unfoldable pub read_name : Text → Option Text
unfolding nonempty
read_name s = elim (fgets 32 s) [ none ↦ none | some line ↦ nonempty (cut_at b'\n' line.0) ]

unfoldable pub queue_name : (pid : ℕ) → Text
queue_name pid = codes "/chat_client_" ++ show_nat pid

unfoldable pub reg_message : (name : Text) → (client_queue_name : Text) → Text
reg_message name client_queue_name = codes "REG|" ++ (name ++ b'|' ∷ client_queue_name)

-- The wait of `main` for a number: `n` of the 50 rounds are left, and `ids` is what it reads in turn.
unfoldable pub wait_id : ℕ → List ℤ → ℤ
wait_id n [] = negsuc 0
wait_id zero (id ∷ ids) = id
wait_id (suc n) (id ∷ ids) =
    let later = wait_id n ids in elim id [ negsuc zero ↦ later | other ↦ other ]

-- The end of `main`'s set-up: the two first messages, or the end of the program.
unfoldable pub logged_in : Sizes → Session → Done
unfolding add_message cleanup
logged_in w s = elim s.client_id [
  | negsuc zero ↦ cleanup s
  | other ↦
      let first = add_message w (codes "[SYSTEM] You are logged in as: ") s in
      let second = add_message w s.name first.0 in
      record { session = second.0; posted = []; shown = first.1 ∷ second.1 ∷ [] }
]
