-- ===== src/QueueChat/ClientSide/Tests.antt =====
-- The theorems on the client and the server together, at concrete lines and requests.
use eltex_school.Base.{
  ℕ, ◌≡◌, refl, true, false, Option, none, some, List, [], ◌∷◌, arith, replicate, set,
}
use eltex_school.Base.Int.{pos, negsuc}
use eltex_school.Text.{
  Text, codes, str_eq, scan_int, show_int, show_nat, digits_loop, fgets, take_line, cut_at,
}
use eltex_school.Chat.Input.{edit, press, typing, entered}
use eltex_school.QueueChat.{
  no_client, Server, Sent, sent, unlinked, handle, find_client_by_id, find_free_slot,
}
use eltex_school.QueueChat.Tests.{junk, empty, empty-IsServer}
use eltex_school.QueueChat.Delivery.{Delivered}
use eltex_school.QueueChat.Roster.{at}
use eltex_school.QueueChat.ClientSide.{
  Session, Sizes, Done, receive, send_round, add_message, local_message, message, read_name,
  reg_message, queue_name, nonempty,
}
use eltex_school.QueueChat.ClientSide.Talk.{line_heard}
use eltex_school.QueueChat.ClientSide.Register.{registered}

abbrev sizes : Sizes
sizes = record { screen_rows = 24; rows = 21; columns = 58 }

abbrev bob : Session
bob = record {
  client_id = pos 1;
  running = true;
  name = codes "bob";
  msg_lines = 2;
  user_list = [];
}

abbrev server : Server
server = record {
  clients =
      record { name = codes "ann"; queue_name = codes "/a"; queue = some 3; active = true; id = 0 }
      ∷ record {
        name = codes "bob";
        queue_name = codes "/b";
        queue = some 4;
        active = true;
        id = 1;
      }
      ∷ replicate 8 no_client;
  next_id = 2;
}

abbrev keys : List (Option ℕ)
keys = some b'h' ∷ some b'x' ∷ some 263 ∷ some b'i' ∷ some b'\n' ∷ []

typed_hi : edit keys (typing []) ≡ entered (codes "hi")
unfolding edit press
typed_hi = refl

bob_found : find_client_by_id (pos 1) 0 server.clients ≡ some 1
unfolding find_client_by_id
bob_found = refl

line_heard_example :
    let text = local_message (codes "bob") (codes "hi") in
    (d : Done) × (send_round sizes keys bob ≡ some d)
    × (d.shown ≡ (add_message sizes text bob).1 ∷ [])
    × ((m : Text) × (d.posted ≡ m ∷ [])
        × ((told : List Sent) × (handle none junk m server ≡ some (server, told))
            × Delivered text (pos 1) server.clients told))
unfolding message local_message show_int show_nat digits_loop
line_heard_example =
    line_heard sizes keys bob b'h' 1 1 (codes "i") none junk server typed_hi refl bob_found refl
      (omega arith) (omega arith)

typed_ann : read_name (codes "ann\n") ≡ some (codes "ann")
unfolding read_name nonempty fgets take_line cut_at
typed_ann = refl

free_slot : find_free_slot 0 empty.clients ≡ some 0
unfolding find_free_slot
free_slot = refl

abbrev newcomer : Session
newcomer = record bob { client_id = negsuc 0; name = codes "ann" }

registered_example :
    (s' : Server) × (ok : Text) × (rest : List Sent) × (handle
        (some 7)
        junk
        (reg_message (codes "ann") (queue_name 51))
        empty
      ≡ some (s', sent (some 7) ok ∷ rest))
    × (find_client_by_id (pos 0) 0 s'.clients ≡ some 0)
    × ((at 0 s'.clients).name ≡ codes "ann")
    × ((receive sizes ok newcomer).session.client_id ≡ pos 0)
unfolding queue_name show_nat digits_loop
registered_example =
    registered (codes "ann\n") (codes "ann") 51 7 0 junk empty sizes newcomer empty-IsServer
      typed_ann (refl, (refl, (refl, tt))) (omega arith) free_slot

-- The list of users that the server sends when a client has left.
abbrev after_quit : Server × List Sent
after_quit = (
  record server {
    clients = set server.clients 1 (record (at 1 server.clients) { active = false });
  },
  unlinked (codes "/b")
      ∷ sent (some 3) (codes "[SERVER] bob left the chat")
      ∷ sent (some 3) (codes "[SERVER] Users in chat: ann ")
      ∷ [],
)

quit_handled : handle none junk (codes "QUIT|1") server ≡ some after_quit
unfolding handle str_eq find_client_by_id scan_int
quit_handled = refl
