-- ===== src/Taxi/Driver.antt =====
-- `driver_loop` of finalTask2/taxi.c, the process of one driver.
pub mod Laws
use eltex_school.Base.{
  ℕ, suc, zero, Bool, true, false, ◌&&◌, Option, none, some, List, [], ◌∷◌, ◌++◌, ltb,
  if◌then◌else◌,
}
use eltex_school.Base.Int.{ℤ, pos, ◌+ℤ◌, ◌-ℤ◌, leb_ℤ, ltb_ℤ}
use eltex_school.Text.{Text, codes, str_eq, starts_with, show_int}
use eltex_school.Taxi.Status.{number_after}

pub record State : Type 0 where
  pub busy : Bool
  pub end_time : ℤ

abbrev pub start : State
start = record { busy = false; end_time = pos 0 }

-- The top of the loop: a task whose time has come ends, with a line to the dispatcher.
unfoldable pub expire : (now : ℤ) → State → State × List Text
expire now s =
    if s.busy && leb_ℤ s.end_time now
    then (record s { busy = false }, codes "Available" ∷ [])
    else (s, [])

-- `end_time - time (NULL)`, or 0 if that is negative: the wait of `select`, and what "Busy" reports.
unfoldable pub remaining : (now : ℤ) → State → ℤ
remaining now s = let rem = s.end_time -ℤ now in if ltb_ℤ rem (pos 0) then pos 0 else rem

unfoldable pub busy_line : (now : ℤ) → State → Text
unfolding remaining
busy_line now s = codes "Busy " ++ show_int (remaining now s)

-- "task %d" after `strncmp (buf, "task", 4) == 0`.
unfoldable pub take_task : (now : ℤ) → Option ℤ → State → State × Text
unfolding busy_line
take_task now none s = (s, codes "ERROR")
take_task now (some timer) s =
    if s.busy
    then (s, busy_line now s)
    else (record { busy = true; end_time = now +ℤ timer }, codes "OK")

-- The answer to a line from the dispatcher.
unfoldable pub command : (now : ℤ) → Text → State → State × Text
unfolding take_task number_after busy_line
command now buf s =
    if starts_with buf (codes "task")
    then take_task now (number_after 4 buf) s
    else if str_eq buf (codes "status")
    then (s, if s.busy then busy_line now s else codes "Available")
    else (s, codes "UNKNOWN")

-- What `select` and `read_line` bring: a time-out, a line that is not empty, or the end (an error,
-- the pipe's end or an empty line). `now` is the time at the top of the loop, `later` at the answer.
pub data Event : Type 0 where
  timed_out : (now : ℤ) → Event
  got_line : (now later : ℤ) → Text → Event
  ended : (now : ℤ) → Event

-- One round: the state, the lines written, and whether the loop goes on.
unfoldable pub step : Event → State → State × List Text × Bool
unfolding expire command
step (timed_out now) s = let e = expire now s in (e.0, e.1, true)
step (ended now) s = let e = expire now s in (e.0, e.1, false)
step (got_line now later buf) s =
    let e = expire now s in
    let answer = command later buf e.0 in (answer.0, e.1 ++ answer.1 ∷ [], true)

-- The loop over its events, with all that it writes.
unfoldable pub run : List Event → State → State × List Text
unfolding step
run [] s = (s, [])
run (e ∷ events) s =
    let now = step e s in
    let rest = run events now.0 in if now.2 then (rest.0, now.1 ++ rest.1) else (now.0, now.1)
