-- ===== src/TimePool/Tests.antt =====
-- The theorems of the pool at concrete turns.
use eltex_school.Base.{◌≡◌, refl, true, false, List, [], ◌∷◌, replicate, arith}
use eltex_school.TimePool.{
  looking, Server, start, Turn, accepts, looks, wakes, finishes, accepted, answered, dropped, run,
}
use eltex_school.TimePool.Connections.{Accounted, run-Accounted}
use eltex_school.TimePool.Blocked.{IsBlocked, run-IsBlocked}

abbrev turns : List Turn
turns =
    accepts 7 ∷ looks ∷ accepts 8 ∷ wakes 0 ∷ looks ∷ finishes 0 ∷ looks ∷ wakes 0 ∷ finishes 0 ∷ []

seen : (run turns start).1 ≡ accepted 7 ∷ accepted 8 ∷ answered 7 ∷ answered 8 ∷ []
unfolding run
seen = refl

run-Accounted_example : Accounted 8 start (run turns start)
run-Accounted_example = run-Accounted 8 turns start

-- The first worker serves, the others are free.
abbrev busy : Server
busy = record {
  workers =
      record { client_fd = 7; is_occupied = true; serving = true }
      ∷ replicate 4 (record { client_fd = 0; is_occupied = false; serving = false });
  main = looking 8 0;
}

busy-IsBlocked : IsBlocked 8 0 busy
busy-IsBlocked = record {
  at = refl;
  worker = record { client_fd = 7; is_occupied = true; serving = true };
  held = refl;
  serves = refl;
}

run-IsBlocked_example :
    IsBlocked 8 0 (run (looks ∷ wakes 1 ∷ finishes 1 ∷ accepts 9 ∷ looks ∷ []) busy).0
run-IsBlocked_example =
    run-IsBlocked (looks ∷ wakes 1 ∷ finishes 1 ∷ accepts 9 ∷ looks ∷ []) 8 0 busy busy-IsBlocked
      (omega arith, tt)

-- A sixth connection that comes before any worker has woken is dropped.
full : Server
full = record {
  workers = replicate 5 (record { client_fd = 3; is_occupied = true; serving = false });
  main = looking 9 0;
}

overrun : (run (looks ∷ looks ∷ looks ∷ looks ∷ looks ∷ looks ∷ []) full).1 ≡ dropped 9 ∷ []
unfolding run full
overrun = refl
