-- ===== src/Taxi/Dispatcher.antt =====
-- `main` of finalTask2/taxi.c: the commands of the dispatcher.
pub mod Laws
use eltex_school.Base.{
  ℕ, suc, zero, ◌+◌, Bool, true, false, ◌&&◌, Option, none, some, List, [], ◌∷◌, ◌++◌,
  if◌then◌else◌, length, ◌==◌, map,
}
use eltex_school.Base.Int.{ℤ, pos, ◌+ℤ◌, ◌-ℤ◌, leb_ℤ, ltb_ℤ}
use eltex_school.Text.{Text, codes, str_eq, starts_with, strtok, atoi, cut_at, show_int}
use eltex_school.Taxi.Table.{Driver, Fleet, find_driver, add_driver}
use eltex_school.Taxi.Status.{apply_status}
use eltex_school.Taxi.Wait.{
  Ready, Selected, Waited, replied, select_failed, still_waiting, wait_for_response, scan_idle,
}

-- What is printed, and what is written to a driver's pipe.
pub data Output : Type 0 where
  created : ℤ → Output
  not_found assigned send_usage status_usage unknown pipe_failed fork_failed : Output
  printed : Text → Output
  wrote : (write_fd : ℕ) → Text → Output
  row : (pid : ℤ) → Option ℤ → Output

-- How `pipe` and `fork` end: the child's pid and the dispatcher's ends of the pipes.
pub data Fork : Type 0 where
  no_pipe no_child : Fork
  child : (pid : ℤ) → (read_fd write_fd : ℕ) → Fork

-- What the system brings in one round: whether `select` succeeds, a line of input if `select` reports one (`none` for the end
-- of the input), the pipes that it reports with what a read then brings, the times that `time`
-- gives, and the further returns of `select` while the dispatcher waits.
pub record Round : Type 0 where
  pub selected : Bool
  pub stdin : Option (Option Text)
  pub ready : ℕ → Option Ready
  pub fork : Fork
  pub selects : List Selected
  pub now : ℤ

-- A command's result: `none` if it still waits for a driver.
abbrev pub Result : Type 0
Result = Option (Fleet × List Output)

unfoldable pub create_driver : Fork → Fleet → Fleet × List Output
create_driver no_pipe f = (f, pipe_failed ∷ [])
create_driver no_child f = (f, fork_failed ∷ [])
create_driver (child pid read_fd write_fd) f = (add_driver pid read_fd write_fd f, created pid ∷ [])

abbrev pub on_task : ℤ → Driver → Driver
on_task end d = record d { busy = true; end_time = end }

-- The driver at an index, out of range an entry that is not looked at.
unfoldable pub update_at : ℕ → (Driver → Driver) → List Driver → List Driver
update_at i g [] = []
update_at zero g (d ∷ ds) = g d ∷ ds
update_at (suc i) g (d ∷ ds) = d ∷ update_at i g ds

-- After `wait_for_response` in `send_task`: the index is the one from before the wait.
unfoldable pub task_reply : (now timer : ℤ) → ℕ → Fleet → Option Waited → Result
task_reply now timer i f none = some (f, [])
task_reply now timer i f (some (still_waiting ds)) = none
task_reply now timer i f (some (select_failed ds)) = some (record f { drivers = ds }, [])
task_reply now timer i f (some (replied buf ds)) =
    if starts_with buf (codes "OK")
    then some (record f { drivers = update_at i (on_task (now +ℤ timer)) ds }, assigned ∷ [])
    else some (record f { drivers = ds }, printed buf ∷ [])

abbrev pub prepend : List Output → Result → Result
prepend os none = none
prepend os (some (f, rest)) = some (f, os ++ rest)

abbrev pub fd_at : ℕ → List Driver → ℕ
fd_at i [] = 0
fd_at zero (d ∷ ds) = d.write_fd
fd_at (suc i) (d ∷ ds) = fd_at i ds

unfoldable pub send_task : Round → (pid timer : ℤ) → Fleet → Result
unfolding task_reply
send_task r pid timer f = elim (find_driver pid f) [
  | none ↦ some (f, not_found ∷ [])
  | some i ↦
      prepend (wrote (fd_at i f.drivers) (codes "task " ++ (show_int timer ++ codes "\n")) ∷ [])
        (task_reply r.now timer i f (wait_for_response i r.selects f.drivers))
]

unfoldable pub status_reply : (now : ℤ) → ℕ → Fleet → Option Waited → Result
status_reply now i f none = some (f, [])
status_reply now i f (some (still_waiting ds)) = none
status_reply now i f (some (select_failed ds)) = some (record f { drivers = ds }, [])
status_reply now i f (some (replied buf ds)) =
    some (record f { drivers = update_at i (apply_status now buf) ds }, printed buf ∷ [])

unfoldable pub get_status : Round → (pid : ℤ) → Fleet → Result
unfolding status_reply
get_status r pid f = elim (find_driver pid f) [
  | none ↦ some (f, not_found ∷ [])
  | some i ↦
      prepend (wrote (fd_at i f.drivers) (codes "status\n") ∷ [])
        (status_reply r.now i f (wait_for_response i r.selects f.drivers))
]

-- One driver in `get_drivers`: a task whose time has come is over.
unfoldable pub refresh : (now : ℤ) → Driver → Driver
refresh now d = if d.busy && leb_ℤ d.end_time now then record d { busy = false } else d

unfoldable pub driver_row : (now : ℤ) → Driver → Output
driver_row now d =
    let rem = d.end_time -ℤ now in
    row d.pid (if d.busy then some (if ltb_ℤ rem (pos 0) then pos 0 else rem) else none)

unfoldable pub get_drivers : (now : ℤ) → Fleet → Fleet × List Output
unfolding refresh driver_row
get_drivers now f =
    let ds = map (refresh now) f.drivers in (record f { drivers = ds }, map (driver_row now) ds)

abbrev pub is_blank : ℕ → Bool
is_blank c = c == 32

abbrev pub token_or_none : Option (Text × Text) → Option Text × Text
token_or_none none = (none, [])
token_or_none (some (t, rest)) = (some t, rest)

-- The arguments of `send_task`; a usage line ends the round without the loop over the pipes.
unfoldable pub send_args :
    Round → Option Text → Option Text → Fleet → Option (Fleet × List Output × Bool)
unfolding send_task
send_args r (some pid) (some timer) f = elim (send_task r (atoi pid) (atoi timer) f) [
  | none ↦ none
  | some (f', os) ↦ some (f', os, true)
]
send_args r _ _ f = some (f, send_usage ∷ [], false)

unfoldable pub status_args : Round → Option Text → Fleet → Option (Fleet × List Output × Bool)
unfolding get_status
status_args r none f = some (f, status_usage ∷ [], false)
status_args r (some pid) f = elim (get_status r (atoi pid) f) [
  | none ↦ none
  | some (f', os) ↦ some (f', os, true)
]

-- Whether `pipe` or `fork` failed, after which the loop over the pipes is skipped.
abbrev pub is_child : Fork → Bool
is_child (child pid read_fd write_fd) = true
is_child no_pipe = false
is_child no_child = false

-- A command line by its first word. The flag tells whether the loop over the pipes follows.
unfoldable pub dispatch : Round → Text → Text → Fleet → Option (Fleet × List Output × Bool)
unfolding create_driver get_drivers
dispatch r word args f =
    if str_eq word (codes "create_driver")
    then (let c = create_driver r.fork f in some (c.0, c.1, is_child r.fork))
    else if str_eq word (codes "send_task")
    then (let pid = token_or_none (strtok is_blank args) in
        let timer = token_or_none (strtok is_blank pid.1) in send_args r pid.0 timer.0 f)
    else if str_eq word (codes "get_status")
    then status_args r (token_or_none (strtok is_blank args)).0 f
    else if str_eq word (codes "get_drivers")
    then (let g = get_drivers r.now f in some (g.0, g.1, true))
    else some (f, unknown ∷ [], true)

-- The line of input of a round, if there is one.
unfoldable pub command : Round → Text → Fleet → Option (Fleet × List Output × Bool)
unfolding dispatch
command r line f = elim (strtok is_blank (cut_at 10 line)) [
  | none ↦ some (f, [], false)
  | some (word, args) ↦ dispatch r word args f
]

abbrev pub poll : Round → Fleet → Fleet
poll r f = record f { drivers = scan_idle r.now r.ready f.drivers }

pub data Step : Type 0 where
  goes_on : Fleet → List Output → Step
  stops : Fleet → Step
  waits : Step

abbrev pub after_command : Round → Option (Fleet × List Output × Bool) → Step
after_command r none = waits
after_command r (some (f, os, true)) = goes_on (poll r f) os
after_command r (some (f, os, false)) = goes_on f os

-- One round of the loop of `main`.
unfoldable pub round : Round → Fleet → Step
unfolding command
round r f =
    if r.selected
    then elim r.stdin [
      | none ↦ goes_on (poll r f) []
      | some none ↦ stops f
      | some (some line) ↦ after_command r (command r line f)
    ]
    else stops f

-- The table when the program starts.
abbrev pub start : Fleet
start = record { drivers = []; max_drivers = 0 }

abbrev pub after_output : List Output → Step → Step
after_output os (goes_on f more) = goes_on f (os ++ more)
after_output os (stops f) = stops f
after_output os waits = waits

-- The loop of `main` over its rounds, with what it puts out while it goes on.
unfoldable pub main_loop : List Round → Fleet → Step
unfolding round
main_loop [] f = goes_on f []
main_loop (r ∷ rs) f = elim (round r f) [
  | goes_on f' os ↦ after_output os (main_loop rs f')
  | stops f' ↦ stops f'
  | waits ↦ waits
]
