-- ===== src/Taxi/Dispatcher/Laws.antt =====
-- The dispatcher's commands: the size of the table, and what becomes of a task.
pub mod Size
pub mod Started
pub mod Faults
use eltex_school.Base.{
  ℕ, suc, zero, ◌+◌, ◌≡◌, ◌≢◌, refl, Bool, true, false, ◌&&◌, Option, none, some, List, [], ◌∷◌,
  ◌++◌, arith, length, get_elem?, if◌then◌else◌, ap, ap₂, sym, ◌∙◌,
}
use eltex_school.Base.Int.{ℤ, pos, ◌+ℤ◌, leb_ℤ, eq_ℤ, eq_ℤ_iff}
use eltex_school.Text.{Text, codes, str_eq, starts_with, show_int}
use eltex_school.Taxi.Table.{Driver, Fleet, find_from, find_driver}
use eltex_school.Taxi.Status.{apply_status}
use eltex_school.Taxi.Wait.{
  Ready, line, gone, Selected, scan_wait, Waited, replied, wait_loop, wait_for_response,
}
use eltex_school.Taxi.Wait.Laws.{NoPid}
use eltex_school.Taxi.Dispatcher.{
  Output, wrote, assigned, printed, Round, Result, on_task, update_at, fd_at, task_reply, prepend,
  send_task,
}
use eltex_school.Taxi.Driver
use eltex_school.Taxi.Driver.{got_line}
use eltex_school.Taxi.Driver.Laws.{task_ends, accepted}

-- The pipes of these drivers bring nothing.
abbrev pub IsQuiet : (ℕ → Option Ready) → List Driver → Type 0
IsQuiet ready [] = Unit {0}
IsQuiet ready (d ∷ ds) = (ready d.read_fd ≡ none) × IsQuiet ready ds

scan_wait_first :
    (now pid : ℤ) (ready : ℕ → Option Ready) (pre post : List Driver) (d : Driver) (buf : Text)
    → IsQuiet ready pre
    → d.pid ≡ pid
    → ready d.read_fd ≡ some (line buf)
    → scan_wait now pid ready (pre ++ d ∷ post) ≡ (pre ++ apply_status now buf d ∷ post, some buf)
unfolding scan_wait
scan_wait_first now pid ready [] post d buf quiet same e =
    rw (e, scan_wait) (rw ((eq_ℤ_iff d.pid pid).1 same) refl)
scan_wait_first now pid ready (x ∷ pre) post d buf quiet same e =
    let ih = scan_wait_first now pid ready pre post d buf quiet.1 same e in
    rw (quiet.0, scan_wait) (ap (λ (r : List Driver × Option Text). (x ∷ r.0, r.1)) ih)

find_from_first :
    (j : ℕ) (pre post : List Driver) (d : Driver)
    → NoPid d.pid pre
    → find_from j d.pid (pre ++ d ∷ post) ≡ some (j + length pre)
unfolding find_from
find_from_first j [] post d h = ground (arith, eq_ℤ_iff d.pid d.pid)
find_from_first j (x ∷ pre) post d h = ground (arith, h.0, find_from_first (j + 1) pre post d h.1)

get_elem?-middle :
    (pre post : List Driver) (d : Driver) → get_elem? (pre ++ d ∷ post) (length pre) ≡ some d
get_elem?-middle [] post d = refl
get_elem?-middle (x ∷ pre) post d = get_elem?-middle pre post d

update_at-middle :
    (g : Driver → Driver) (pre post : List Driver) (d : Driver)
    → update_at (length pre) g (pre ++ d ∷ post) ≡ pre ++ g d ∷ post
unfolding update_at
update_at-middle g [] post d = refl
update_at-middle g (x ∷ pre) post d = ap (◌∷◌ x) (update_at-middle g pre post d)

fd_at-middle :
    (pre post : List Driver) (d : Driver) → fd_at (length pre) (pre ++ d ∷ post) ≡ d.write_fd
fd_at-middle [] post d = refl
fd_at-middle (x ∷ pre) post d = fd_at-middle pre post d

-- What the wait for a driver gives when its line is the first to come.
wait_first :
    (pre post : List Driver) (d : Driver) (buf : Text) (now : ℤ) (ready : ℕ → Option Ready)
    (selects : List Selected)
    → IsQuiet ready pre
    → ready d.read_fd ≡ some (line buf)
    → wait_for_response
        (length pre)
        (record { now = now; ready = some ready } ∷ selects)
        (pre ++ d ∷ post)
      ≡ some (replied buf (pre ++ apply_status now buf d ∷ post))
unfolding wait_for_response
wait_first pre post d buf now ready selects quiet e =
    let scanned = scan_wait_first now d.pid ready pre post d buf quiet refl e in
    rw (get_elem?-middle pre post d, wait_for_response)
      (rw (scanned, wait_loop)
        (ap (λ (r : List Driver × Option Text). some (replied buf r.0)) scanned))

find_driver_first :
    (pre post : List Driver) (d : Driver) (room : ℕ)
    → NoPid d.pid pre
    → find_driver d.pid (record { drivers = pre ++ d ∷ post; max_drivers = room })
      ≡ some (length pre)
unfolding find_driver
find_driver_first pre post d room h = find_from_first 0 pre post d h ∙ ap some (omega arith)

abbrev pub task_line : ℤ → Text
task_line timer = codes "task " ++ (show_int timer ++ codes "\n")

module _ (pre post : List Driver) (d : Driver) (room : ℕ) (r : Round) (timer when : ℤ)
    (ready : ℕ → Option Ready) (selects : List Selected) (first : NoPid d.pid pre)
    (selected : r.selects ≡ record { now = when; ready = some ready } ∷ selects)
    (quiet : IsQuiet ready pre) where
  pub send_first :
      (buf : Text)
      → ready d.read_fd ≡ some (line buf)
      → send_task r d.pid timer (record { drivers = pre ++ d ∷ post; max_drivers = room })
        ≡ prepend (wrote d.write_fd (task_line timer) ∷ []) (
            task_reply r.now timer
              (length pre)
              (record { drivers = pre ++ d ∷ post; max_drivers = room })
              (some (replied buf (pre ++ apply_status when buf d ∷ post))))
  unfolding send_task
  send_first buf e =
      rw (find_driver_first pre post d room first, send_task)
        (rw
          (selected, fd_at-middle pre post d, wait_first pre post d buf when ready selects quiet e)
          refl)

  -- A task for the first driver with the pid, whose OK is the first line to come: the driver is
  -- written to, it alone is marked, and the user is told.
  pub send_task_assigned :
      ready d.read_fd ≡ some (line (codes "OK"))
      → send_task r d.pid timer (record { drivers = pre ++ d ∷ post; max_drivers = room })
        ≡ some (
          record {
            drivers = pre ++ record d { busy = true; end_time = r.now +ℤ timer } ∷ post;
            max_drivers = room;
          },
          wrote d.write_fd (task_line timer) ∷ assigned ∷ [],
        )
  unfolding task_reply apply_status str_eq starts_with
  send_task_assigned e =
      send_first (codes "OK") e ∙ rw (update_at-middle (on_task (r.now +ℤ timer)) pre post d) refl
