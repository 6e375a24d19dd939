-- ===== src/Taxi/Tests.antt =====
-- The theorems of the taxi dispatcher at concrete tables and drivers.
use eltex_school.Base.{
  ℕ, ◌+◌, ◌≡◌, refl, true, false, Option, none, some, [], ◌∷◌, ◌++◌, if◌then◌else◌, ◌==◌,
}
use eltex_school.Base.Int.{pos, ◌+ℤ◌, ◌-ℤ◌}
use eltex_school.Text.{
  Text, codes, show_int, cut_at, strtok, skip_delims, split_delim, token_at, str_eq,
}
use eltex_school.Taxi.Table.{Driver, add_driver}
use eltex_school.Taxi.Status.{apply_status}
use eltex_school.Taxi.Driver
use eltex_school.Taxi.Dispatcher
use eltex_school.Taxi.Driver.{State, run, step, got_line, timed_out}
use eltex_school.Taxi.Driver.Laws.{status_view, task_kept}
use eltex_school.Taxi.Wait.{Ready, line, gone, scan_idle}
use eltex_school.Taxi.Dispatcher.{
  wrote, assigned, Round, Step, goes_on, created, child, no_child, send_task, start, main_loop,
  round, dispatch, create_driver,
}
use eltex_school.Taxi.Dispatcher.Laws.{send_task_assigned, task_line}
use eltex_school.Taxi.Dispatcher.Laws.Size.{StepIsValid}
use eltex_school.Taxi.Dispatcher.Laws.Started.{started-IsValid}

abbrev cab : ℕ → Driver
cab n = record {
  pid = pos (100 + n);
  read_fd = n;
  write_fd = n + 50;
  busy = false;
  end_time = pos 0;
}

abbrev on_a_task : State
on_a_task = record { busy = true; end_time = pos 30 }

abbrev free_cab : State
free_cab = record { busy = false; end_time = pos 30 }

status_view_example :
    apply_status (pos 21) (Driver.command (pos 20) (codes "status") on_a_task).1 (cab 1)
    ≡ record (cab 1) { busy = true; end_time = pos 21 +ℤ (pos 30 -ℤ pos 20) }
status_view_example = status_view (pos 20) (pos 21) on_a_task (cab 1)

task_kept_example :
    let told = step (got_line (pos 1) (pos 2) (codes "task " ++ show_int (pos 9))) free_cab in
    (told.1 ≡ codes "OK" ∷ [])
    × ((run (timed_out (pos 5) ∷ []) told.0).0 ≡ record { busy = true; end_time = pos 2 +ℤ pos 9 })
unfolding ◌+ℤ◌
task_kept_example =
    task_kept (pos 1) (pos 2) (pos 9) free_cab (timed_out (pos 5) ∷ []) refl (refl, tt)

abbrev cab_gone : ℕ → Option Ready
cab_gone fd = if fd == 1 then some gone else none

-- The first pipe has ended where `first` says so, the second brings a line.
abbrev brings : Option Ready → Text → ℕ → Option Ready
brings first text fd = if fd == 1 then first else if fd == 2 then some (line text) else none

abbrev told_round : Option Ready → Text → Round
told_round first text = record {
  selected = true;
  stdin = some (some (codes "send_task 102 7\n"));
  ready = λ fd. none;
  fork = no_child;
  selects = record { now = pos 1; ready = some (brings first text) } ∷ [];
  now = pos 1;
}

send_task_assigned_example :
    send_task
      (told_round none (codes "OK"))
      (pos 102)
      (pos 7)
      (record { drivers = cab 1 ∷ cab 2 ∷ []; max_drivers = 4 })
    ≡ some (
      record {
        drivers = cab 1 ∷ record (cab 2) { busy = true; end_time = pos 1 +ℤ pos 7 } ∷ [];
        max_drivers = 4;
      },
      wrote 52 (task_line (pos 7)) ∷ assigned ∷ [],
    )
send_task_assigned_example =
    send_task_assigned (cab 1 ∷ []) [] (cab 2) 4 (told_round none (codes "OK")) (pos 7) (pos 1)
      (brings none (codes "OK")) [] (refl, tt) refl (refl, tt) refl

-- A driver is created, then ends.
abbrev born : Round
born = record {
  selected = true;
  stdin = some (some (codes "create_driver\n"));
  ready = λ fd. none;
  fork = child (pos 101) 1 51;
  selects = [];
  now = pos 1;
}

abbrev died : Round
died = record born { stdin = none; ready = cab_gone; fork = no_child }

created_test :
    main_loop (born ∷ []) start
    ≡ goes_on (record { drivers = cab 1 ∷ []; max_drivers = 4 }) (created (pos 101) ∷ [])
unfolding main_loop round Dispatcher.command dispatch create_driver add_driver cut_at strtok
    skip_delims split_delim token_at str_eq scan_idle
created_test = refl

started-IsValid_example : StepIsValid (main_loop (born ∷ died ∷ []) start)
started-IsValid_example = started-IsValid (born ∷ died ∷ [])
