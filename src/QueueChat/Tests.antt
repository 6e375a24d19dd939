-- ===== src/QueueChat/Tests.antt =====
-- The theorems of the message-queue chat at concrete requests.
use eltex_school.Base.{
  ℕ, zero, suc, ◌≡◌, refl, true, false, some, List, [], ◌∷◌, arith, replicate, length-replicate,
  get_or,
}
use eltex_school.Base.Int.{pos}
use eltex_school.Text.{codes}
use eltex_school.QueueChat.{Client, no_client, Server, Junk, handle}
use eltex_school.QueueChat.Roster.{IsServer, ResultIsServer, handle-ResultIsServer}

abbrev pub junk : Junk
junk = record { cmd_data = ([], []); name_queue = ([], []); number = pos 0; msg = [] }

abbrev pub empty : Server
empty = record { clients = replicate 10 no_client; next_id = 0 }

idle : (n k : ℕ) → (get_or (replicate n no_client) k no_client).active ≡ false
idle zero k = refl
idle (suc n) zero = refl
idle (suc n) (suc k) = idle n k

pub empty-IsServer : IsServer empty
empty-IsServer = record {
  ten = length-replicate 10 no_client;
  below = λ k on. absurd (ground (arith, on, idle 10 k));
  distinct = λ j k on. absurd (ground (arith, on, idle 10 j));
}

handle-ResultIsServer_example : ResultIsServer (handle (some 3) junk (codes "REG|ann|/ann_q") empty)
handle-ResultIsServer_example =
    handle-ResultIsServer (some 3) junk (codes "REG|ann|/ann_q") empty empty-IsServer

abbrev pair : List Client
pair =
    record { name = codes "ann"; queue_name = codes "/a"; queue = some 3; active = true; id = 0 }
    ∷ record { name = codes "bob"; queue_name = codes "/b"; queue = some 4; active = true; id = 1 }
    ∷ []
