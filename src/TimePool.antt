-- ===== src/TimePool.antt =====
-- lab16/task2/time_server_thread_pool.c: the time server with a pool of five workers. The main
-- thread and the workers take turns in any order; a turn is what a thread does up to the next call
-- that can wait. `server_mutex` has no other user than the main thread. A descriptor is
-- the 32 bits of an `int`: -1, which `accept` returns on an error and the code does not test, is
-- 2 ^ 32 - 1.
pub mod Connections
pub mod Blocked
mod Tests
use eltex_school.Base.{
  ℕ, ◌+◌, Bool, true, false, Option, none, some, List, [], ◌∷◌, ◌++◌, if◌then◌else◌, get_elem?, set,
  replicate,
}

abbrev pub thread_pool_size : ℕ
thread_pool_size = 5

-- `serving` is whether the worker is behind its wait and holds its mutex.
pub record Worker : Type 0 where
  pub client_fd : ℕ
  pub is_occupied : Bool
  pub serving : Bool

-- The main thread is at `accept`, or in its loop over the workers with a connection.
pub data Main : Type 0 where
  accepting : Main
  looking : (client_fd i : ℕ) → Main

pub record Server : Type 0 where
  pub workers : List Worker
  pub main : Main

abbrev pub start : Server
start = record {
  workers =
      replicate thread_pool_size (record { client_fd = 0; is_occupied = false; serving = false });
  main = accepting;
}

pub data Turn : Type 0 where
  accepts : (client_fd : ℕ) → Turn
  looks : Turn
  wakes : (id : ℕ) → Turn
  finishes : (id : ℕ) → Turn

pub data Event : Type 0 where
  accepted : (client_fd : ℕ) → Event
  answered : (client_fd : ℕ) → Event
  dropped : (client_fd : ℕ) → Event

-- A connection that is taken from `accept`.
unfoldable pub accept_at : (client_fd : ℕ) → Server → Main → Server × List Event
accept_at client_fd s (looking fd i) = (s, [])
accept_at client_fd s accepting = (record s { main = looking client_fd 0 }, accepted client_fd ∷ [])

-- A round of the loop over the workers; behind the last one nobody has the connection. The main
-- thread waits for the mutex of a worker that serves.
unfoldable pub look_at : Server → (client_fd i : ℕ) → Option Worker → Server × List Event
look_at s client_fd i none = (record s { main = accepting }, dropped client_fd ∷ [])
look_at s client_fd i (some w) =
    if w.serving
    then (s, [])
    else if w.is_occupied
    then (record s { main = looking client_fd (i + 1) }, [])
    else (
      record {
        workers =
            set s.workers i (record { client_fd = client_fd; is_occupied = true; serving = false });
        main = accepting;
      },
      [],
    )

unfoldable pub look : Server → Main → Server × List Event
unfolding look_at
look s accepting = (s, [])
look s (looking client_fd i) = look_at s client_fd i (get_elem? s.workers i)

-- The wait of a worker ends when it is occupied.
unfoldable pub wake_at : (id : ℕ) → Server → Option Worker → Server × List Event
wake_at id s none = (s, [])
wake_at id s (some w) =
    if w.is_occupied
    then (record s { workers = set s.workers id (record w { serving = true }) }, [])
    else (s, [])

-- The answer is written, the connection closed, and the worker free again.
unfoldable pub finish_at : (id : ℕ) → Server → Option Worker → Server × List Event
finish_at id s none = (s, [])
finish_at id s (some w) =
    if w.serving
    then (
      record s { workers = set s.workers id (record w { is_occupied = false; serving = false }) },
      answered w.client_fd ∷ [],
    )
    else (s, [])

unfoldable pub step : Turn → Server → Server × List Event
unfolding accept_at look wake_at finish_at
step (accepts client_fd) s = accept_at client_fd s s.main
step looks s = look s s.main
step (wakes id) s = wake_at id s (get_elem? s.workers id)
step (finishes id) s = finish_at id s (get_elem? s.workers id)

unfoldable pub run : List Turn → Server → Server × List Event
unfolding step
run [] s = (s, [])
run (t ∷ ts) s = let here = step t s in let rest = run ts here.0 in (rest.0, here.1 ++ rest.1)
