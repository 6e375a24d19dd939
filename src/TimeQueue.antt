-- ===== src/TimeQueue.antt =====
-- lab16/task2/time_server_queue.c: the time server with a queue of requests. The main thread and the
-- five workers take turns in any order; a turn is what a thread does up to the next call that can
-- wait. A request is the descriptor of its connection, as the 32 bits of an `int`: -1, which `accept`
-- returns on an error and the code does not test, is 2 ^ 32 - 1.
pub mod Fifo
pub mod Answers
mod Tests
use eltex_school.Base.{
  ℕ, ◌+◌, ◌-◌, ◌%◌, Bool, true, false, Option, none, some, List, [], ◌∷◌, ◌++◌, ◌==◌, if◌then◌else◌,
  get_elem?, get_or, set, replicate,
}

abbrev pub queue_size : ℕ
queue_size = 10

abbrev pub thread_pool_size : ℕ
thread_pool_size = 5

-- `new_request` is what `main` has accepted and not yet put into the queue; a worker has a request
-- from taking it to closing it.
pub record Server : Type 0 where
  pub queue : List ℕ
  pub front : ℕ
  pub rear : ℕ
  pub count : ℕ
  pub new_request : Option ℕ
  pub workers : List (Option ℕ)

abbrev pub start : Server
start = record {
  queue = replicate queue_size 0;
  front = 0;
  rear = 0;
  count = 0;
  new_request = none;
  workers = replicate thread_pool_size none;
}

-- Who takes the next turn, and what the system brings.
pub data Turn : Type 0 where
  accepts : (client_fd : ℕ) → Turn
  puts : Turn
  takes : (id : ℕ) → Turn
  answers : (id : ℕ) → Turn

-- What is seen of it.
pub data Event : Type 0 where
  accepted : (client_fd : ℕ) → Event
  taken : (client_fd : ℕ) → Event
  answered : (client_fd : ℕ) → Event

-- `accept`; `main` is not there while it waits for room.
unfoldable pub accept_at : (client_fd : ℕ) → Server → Option ℕ → Server × List Event
accept_at client_fd s (some waiting) = (s, [])
accept_at client_fd s none = (record s { new_request = some client_fd }, accepted client_fd ∷ [])

-- `main` under the mutex; it waits while the queue is full.
unfoldable pub put_at : Server → Option ℕ → Server × List Event
put_at s none = (s, [])
put_at s (some request) = if s.count == queue_size then (s, []) else (
  record s {
    queue = set s.queue s.rear request;
    rear = (s.rear + 1) % queue_size;
    count = s.count + 1;
    new_request = none;
  },
  [],
)

-- A worker under the mutex; it waits while the queue is empty.
unfoldable pub take_at : (id : ℕ) → Server → Option (Option ℕ) → Server × List Event
take_at id s none = (s, [])
take_at id s (some (some busy)) = (s, [])
take_at id s (some none) =
    if s.count == 0
    then (s, [])
    else (let request = get_or s.queue s.front 0 in
        (
          record s {
            front = (s.front + 1) % queue_size;
            count = s.count - 1;
            workers = set s.workers id (some request);
          },
          taken request ∷ [],
        ))

-- A worker without the mutex: the answer is written, and the connection closed.
unfoldable pub answer_at : (id : ℕ) → Server → Option (Option ℕ) → Server × List Event
answer_at id s none = (s, [])
answer_at id s (some none) = (s, [])
answer_at id s (some (some request)) =
    (record s { workers = set s.workers id none }, answered request ∷ [])

unfoldable pub step : Turn → Server → Server × List Event
unfolding accept_at put_at take_at answer_at
step (accepts client_fd) s = accept_at client_fd s s.new_request
step puts s = put_at s s.new_request
step (takes id) s = take_at id s (get_elem? s.workers id)
step (answers id) s = answer_at id s (get_elem? s.workers id)

unfoldable pub run : List Turn → Server → Server × List Event
unfolding step
run [] s = (s, [])
run (t ∷ ts) s = let here = step t s in let rest = run ts here.0 in (rest.0, here.1 ++ rest.1)
