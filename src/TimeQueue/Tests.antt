-- ===== src/TimeQueue/Tests.antt =====
-- The theorems of the queueing time server at a concrete sequence of turns.
use eltex_school.Base.{◌+◌, ◌≡◌, refl, List, [], ◌∷◌}
use eltex_school.TimeQueue.{
  start, Turn, accepts, puts, takes, answers, taken, answered, accepted, run,
}
use eltex_school.TimeQueue.Fifo.{InOrder, run-InOrder, start-IsQueue, accepted_in, open_requests}
use eltex_school.TimeQueue.Answers.{times, busy, answered_in, all_accounted}

abbrev turns : List Turn
turns =
    takes 0 ∷ accepts 7 ∷ puts ∷ accepts 9 ∷ takes 2 ∷ puts ∷ takes 0 ∷ accepts 4 ∷ answers 2 ∷ []

seen :
    (run turns start).1 ≡ accepted 7 ∷ accepted 9 ∷ taken 7 ∷ taken 9 ∷ accepted 4 ∷ answered 7 ∷ []
unfolding run
seen = refl

run-InOrder_example : InOrder start (run turns start)
run-InOrder_example = run-InOrder turns start start-IsQueue

all_accounted_example :
    let r = run turns start in
    times 7 (accepted_in r.1)
    ≡ times 7 (answered_in r.1) + times 7 (busy r.0.workers) + times 7 (open_requests r.0)
all_accounted_example = all_accounted 7 turns
