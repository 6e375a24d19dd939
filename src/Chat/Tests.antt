-- ===== src/Chat/Tests.antt =====
-- The theorems of the chat at concrete states.
use eltex_school.Base.{
  ◌≡◌, refl, true, none, List, [], ◌∷◌, ◌++◌, arith, get_or, replicate, length-replicate,
  if◌then◌else◌, ◌==◌,
}
use eltex_school.Base.Int.{pos}
use eltex_school.Text.{codes}
use eltex_school.Chat.{
  Client, no_client, no_message, ChatShared, init, post, run, Action, joins, says, leaves, id_or,
}
use eltex_school.Chat.Ring.{size, pending, post-pending, window}
use eltex_school.Chat.Log.{IsLog, Kept, run-Kept, run_full, init-IsLog}
use eltex_school.Chat.Receive.{receive, receive_rest}

abbrev visit : List Action
visit =
    joins (pos 1) (codes "ann")
    ∷ says (pos 2) (pos 1) (codes "ann") (codes "hi")
    ∷ leaves (pos 3) (pos 1) (codes "ann")
    ∷ []

abbrev two_rows : List Client
two_rows =
    record { id = pos 1; name = codes "ann"; active = true; join_time = pos 1 }
    ∷ no_client
    ∷ record { id = pos 3; name = codes "bob"; active = true; join_time = pos 2 }
    ∷ []

-- A ring whose last slot is free, with the head in the middle.
abbrev wrapped : ChatShared
wrapped = record init {
  msg_head = 50;
  msg_tail = 49;
  messages = replicate 100 no_message;
  clients = [];
  user_list = [];
  next_id = pos 1;
  client_count = pos 0;
  posted = 0;
  msg_count = 0;
}

abbrev silent : ChatShared
silent = record init {
  msg_head = 0;
  msg_tail = 99;
  messages = replicate 100 no_message;
  posted = 99;
  msg_count = 99;
}

post-pending_example : pending (post (pos 5) none (codes "SYSTEM") (codes "x") wrapped) ≡ (
    if size wrapped == 99
    then pending wrapped
    else pending wrapped
      ++ record {
        id = id_or (get_or wrapped.messages 49 no_message).id none;
        timestamp = pos 5;
        sender_name = codes "SYSTEM";
        content = codes "x";
      }
        ∷ [])
post-pending_example = post-pending (pos 5) none (codes "SYSTEM") (codes "x") wrapped (record {
  slots = length-replicate 100 no_message;
  head_within = omega arith;
  tail_within = omega arith;
})

run-Kept_example : Kept init (run visit init)
run-Kept_example = run-Kept visit init init-IsLog

silent-IsLog : IsLog silent
silent-IsLog = record {
  slots = length-replicate 100 no_message;
  from_start = refl;
  tail = refl;
  posted = refl;
  few = omega arith;
}

run_full_example : pending (run visit silent) ≡ pending silent
run_full_example = run_full visit silent silent-IsLog refl

abbrev seen : List ChatShared
seen = run (says (pos 4) (pos 7) (codes "bob") (codes "?") ∷ []) silent ∷ run visit silent ∷ []

receive_rest_example :
    ((receive silent seen 97).0 ≡ 99)
    × (window 0 97 silent.messages ++ (receive silent seen 97).1 ≡ pending silent)
receive_rest_example =
    receive_rest silent seen 97 silent-IsLog
      (
        run-Kept (says (pos 4) (pos 7) (codes "bob") (codes "?") ∷ []) silent silent-IsLog,
        (run-Kept visit silent silent-IsLog, tt),
      )
      (omega arith) (omega arith)
