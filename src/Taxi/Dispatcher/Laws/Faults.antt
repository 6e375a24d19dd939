-- ===== src/Taxi/Dispatcher/Laws/Faults.antt =====
-- Where the dispatcher's table goes wrong: an index used after the table has shifted, and a line
-- taken for the answer to a later request.
use eltex_school.Base.{ℕ, ◌≡◌, refl, Bool, true, false, Option, some, List, [], ◌∷◌, ◌++◌, ap}
use eltex_school.Base.Int.{ℤ, ◌+ℤ◌, leb_ℤ, eq_ℤ, eq_ℤ_iff}
use eltex_school.Text.{Text, codes, str_eq, starts_with, show_int}
use eltex_school.Taxi.Table.{Driver, find_from, find_driver}
use eltex_school.Taxi.Status.{apply_status}
use eltex_school.Taxi.Wait.{
  Ready, line, gone, Selected, scan_wait, replied, wait_loop, wait_for_response,
}
use eltex_school.Taxi.Wait.Laws.{NoPid}
use eltex_school.Taxi.Dispatcher.{
  wrote, assigned, printed, Round, on_task, update_at, task_reply, send_task,
}
use eltex_school.Taxi.Driver.{State, step, got_line}
use eltex_school.Taxi.Driver.Laws.{told_twice}
use eltex_school.Taxi.Dispatcher.Laws.{IsQuiet, task_line, send_first}

second_found :
    (a b : Driver) (rest : List Driver) (room : ℕ)
    → eq_ℤ a.pid b.pid ≡ false
    → find_driver b.pid (record { drivers = a ∷ b ∷ rest; max_drivers = room }) ≡ some 1
unfolding find_driver find_from
second_found a b rest room ne = rw ne (rw ((eq_ℤ_iff b.pid b.pid).1 refl) refl)

second_scanned :
    (a b : Driver) (rest : List Driver) (when : ℤ) (ready : ℕ → Option Ready)
    → ready a.read_fd ≡ some gone
    → ready b.read_fd ≡ some (line (codes "OK"))
    → scan_wait when b.pid ready (a ∷ b ∷ rest) ≡ (b ∷ rest, some (codes "OK"))
unfolding scan_wait apply_status str_eq starts_with
second_scanned a b rest when ready dead ok =
    rw (dead, scan_wait) (rw (ok, scan_wait) (rw ((eq_ℤ_iff b.pid b.pid).1 refl) refl))

second_waited :
    (a b : Driver) (rest : List Driver) (when : ℤ) (ready : ℕ → Option Ready)
    (selects : List Selected)
    → ready a.read_fd ≡ some gone
    → ready b.read_fd ≡ some (line (codes "OK"))
    → wait_for_response 1 (record { now = when; ready = some ready } ∷ selects) (a ∷ b ∷ rest)
      ≡ some (replied (codes "OK") (b ∷ rest))
unfolding wait_for_response
second_waited a b rest when ready selects dead ok =
    let scanned = second_scanned a b rest when ready dead ok in
    rw (scanned, wait_loop)
      (ap (λ (r : List Driver × Option Text). some (replied (codes "OK") r.0)) scanned)

-- While the dispatcher waits for the second driver, the first one's pipe ends: the table shifts,
-- and the driver that is marked as on the task is the one behind, not the one that took it.
pub task_marks_other :
    (a b c : Driver) (rest : List Driver) (room : ℕ) (r : Round) (timer when : ℤ)
    (ready : ℕ → Option Ready) (selects : List Selected)
    → eq_ℤ a.pid b.pid ≡ false
    → r.selects ≡ record { now = when; ready = some ready } ∷ selects
    → ready a.read_fd ≡ some gone
    → ready b.read_fd ≡ some (line (codes "OK"))
    → send_task r b.pid timer (record { drivers = a ∷ b ∷ c ∷ rest; max_drivers = room })
      ≡ some (
        record { drivers = b ∷ on_task (r.now +ℤ timer) c ∷ rest; max_drivers = room },
        wrote b.write_fd (task_line timer) ∷ assigned ∷ [],
      )
unfolding send_task task_reply update_at starts_with
task_marks_other a b c rest room r timer when ready selects ne e dead ok =
    rw (second_found a b (c ∷ rest) room ne, send_task)
      (rw (e, second_waited a b (c ∷ rest) when ready selects dead ok) refl)

-- A driver whose task has just ended answers a new task by two lines, and the dispatcher takes the
-- first for the answer: it shows the driver as free and reports no task, while the driver is on it.
pub stale_reply :
    (now later timer : ℤ) (s : State) (pre post : List Driver) (d : Driver) (room : ℕ) (r : Round)
    (when : ℤ) (ready : ℕ → Option Ready) (selects : List Selected)
    → s.busy ≡ true
    → leb_ℤ s.end_time now ≡ true
    → NoPid d.pid pre
    → IsQuiet ready pre
    → r.selects ≡ record { now = when; ready = some ready } ∷ selects
    → ready d.read_fd ≡ some (line (codes "Available"))
    → let told = step (got_line now later (codes "task " ++ show_int timer)) s in
      (told.0 ≡ record { busy = true; end_time = later +ℤ timer })
      × (told.1 ≡ codes "Available" ∷ codes "OK" ∷ [])
      × (send_task r d.pid timer (record { drivers = pre ++ d ∷ post; max_drivers = room })
          ≡ some (
            record { drivers = pre ++ record d { busy = false } ∷ post; max_drivers = room },
            wrote d.write_fd (task_line timer) ∷ printed (codes "Available") ∷ [],
          ))
unfolding task_reply apply_status str_eq starts_with
stale_reply now later timer s pre post d room r when ready selects b due first quiet e avail =
    let told = told_twice now later timer s b due in
    (
      ap (λ (t : State × List Text × Bool). t.0) told,
      ap (λ (t : State × List Text × Bool). t.1) told,
      send_first pre post d room r timer when ready selects first e quiet (codes "Available") avail,
    )
