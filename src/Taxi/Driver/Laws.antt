-- ===== src/Taxi/Driver/Laws.antt =====
-- What a driver answers, and what the dispatcher reads from it.
use eltex_school.Base.{
  zero, suc, ◌≤◌, ◌≡◌, refl, true, false, Option, some, List, [], ◌∷◌, ◌++◌, arith, if◌then◌else◌,
  ap, ◌∙◌, ◌⊎◌, inl, inr, Option-cases, Bool-cases,
}
use mathlib.Core.List.{append-nil}
use eltex_school.Base.Int.{ℤ, pos, negsuc, pos_part, neg_part, ◌+ℤ◌, ◌-ℤ◌, -ℤ_parts, leb_ℤ, ltb_ℤ}
use eltex_school.Text.{Text, codes, str_eq, starts_with, show_int, scan_int, skip_space}
use eltex_school.Text.Decimal.{scan_int-show_int}
use eltex_school.Taxi.Table.{Driver}
use eltex_school.Taxi.Status.{number_after, apply_status}
use eltex_school.Taxi.Driver.{
  State, expire, remaining, busy_line, command, step, run, Event, timed_out, got_line, ended,
}

-- While a driver is on a task no command changes its state, and it answers by the time that
-- remains, or that it does not understand.
pub command_busy :
    (now : ℤ) (buf : Text) (s : State)
    → s.busy ≡ true
    → ((command now buf s).0 ≡ s)
      × (((command now buf s).1 ≡ busy_line now s)
          ⊎ ((command now buf s).1 ≡ codes "ERROR")
          ⊎ ((command now buf s).1 ≡ codes "UNKNOWN"))
unfolding command
command_busy now buf s b = elim (Option-cases (number_after 4 buf)) [
  | inl e ↦ ground (arith, b, e)
  | inr (timer, e) ↦ ground (arith, b, e)
]

-- "Busy %ld" is read back as the number that was printed.
busy_number : (now : ℤ) (s : State) → number_after 4 (busy_line now s) ≡ some (remaining now s)
unfolding number_after busy_line scan_int skip_space
busy_number now s =
    let whole = append-nil (show_int (remaining now s)) in
    rw (← whole) (
      unfold number_after busy_line in
      ap (λ (r : Option ℤ × Text). r.0) (scan_int-show_int (remaining now s) [] tt))

clamped :
    (rem : ℤ) → pos_part rem ≤ neg_part rem → (if ltb_ℤ rem (pos 0) then pos 0 else rem) ≡ pos 0
clamped (pos zero) h = refl
clamped (pos (suc n)) h = absurd (omega (arith, h))
clamped (negsuc n) h = ground arith

remaining_over : (now : ℤ) (s : State) → leb_ℤ s.end_time now ≡ true → remaining now s ≡ pos 0
unfolding remaining
remaining_over now s over =
    clamped (s.end_time -ℤ now) (ground (arith, over, -ℤ_parts s.end_time now))

remaining_ahead :
    (now : ℤ) (s : State) → leb_ℤ s.end_time now ≡ false → remaining now s ≡ s.end_time -ℤ now
unfolding remaining
remaining_ahead now s ahead =
    let left : ltb_ℤ (s.end_time -ℤ now) (pos 0) ≡ false =
      ground (arith, ahead, -ℤ_parts s.end_time now) in
    rw left refl

+ℤ_zero : (a : ℤ) → a +ℤ pos 0 ≡ a
unfolding ◌+ℤ◌
+ℤ_zero (pos n) = ground arith
+ℤ_zero (negsuc n) = ground arith

status_answer :
    (now later : ℤ) (s : State) (d : Driver)
    → apply_status later (command now (codes "status") s).1 d ≡ (
        if s.busy
        then record d { busy = true; end_time = later +ℤ remaining now s }
        else record d { busy = false })
unfolding command apply_status str_eq starts_with
status_answer now later s d = elim (Bool-cases s.busy) [
  | inl on ↦ rw on (unfold number_after busy_line in rw (busy_number now s) refl)
  | inr off ↦ rw off refl
]

-- The dispatcher's view after a status request: whether the driver is busy, and when busy the end of
-- the task, put off by the time between answering and reading; for a task that is over already, the
-- time of reading.
pub status_view :
    (now later : ℤ) (s : State) (d : Driver)
    → apply_status later (command now (codes "status") s).1 d ≡ (
        if s.busy
        then record d {
          busy = true;
          end_time = if leb_ℤ s.end_time now then later else later +ℤ (s.end_time -ℤ now);
        }
        else record d { busy = false })
status_view now later s d =
    status_answer now later s d
    ∙ ap
        (λ (t : ℤ).
          if s.busy then record d { busy = true; end_time = t } else record d { busy = false })
        (elim (Bool-cases (leb_ℤ s.end_time now)) [
          | inl over ↦
              rw over (ap (λ (r : ℤ). later +ℤ r) (remaining_over now s over) ∙ +ℤ_zero later)
          | inr ahead ↦ rw ahead (ap (λ (r : ℤ). later +ℤ r) (remaining_ahead now s ahead))
        ])

-- The end of the task lies ahead at the top of the round.
abbrev pub IsBefore : ℤ → Event → Type 0
IsBefore end (timed_out now) = leb_ℤ end now ≡ false
IsBefore end (got_line now later buf) = leb_ℤ end now ≡ false
IsBefore end (ended now) = leb_ℤ end now ≡ false

abbrev pub AllBefore : ℤ → List Event → Type 0
AllBefore end [] = Unit {0}
AllBefore end (e ∷ events) = IsBefore end e × AllBefore end events

step_keeps : (e : Event) (s : State) → s.busy ≡ true → IsBefore s.end_time e → (step e s).0 ≡ s
unfolding step expire
step_keeps (timed_out now) s b h = ground arith
step_keeps (ended now) s b h = ground arith
step_keeps (got_line now later buf) s b h = ground (arith, command_busy later buf s b)

run_keeps :
    (events : List Event) (s : State)
    → s.busy ≡ true
    → AllBefore s.end_time events
    → (run events s).0 ≡ s
unfolding run
run_keeps [] s b h = refl
run_keeps (e ∷ events) s b h =
    let kept = step_keeps e s b h.0 in ground (arith, kept, run_keeps events s b h.1)

task_number : (timer : ℤ) → number_after 4 (codes "task " ++ show_int timer) ≡ some timer
unfolding number_after scan_int skip_space
task_number timer =
    let whole = append-nil (show_int timer) in
    rw (← whole)
      (unfold number_after in ap (λ (r : Option ℤ × Text). r.0) (scan_int-show_int timer [] tt))

pub accepted :
    (now later timer : ℤ) (s : State)
    → s.busy ≡ false
    → step (got_line now later (codes "task " ++ show_int timer)) s
      ≡ (record { busy = true; end_time = later +ℤ timer }, codes "OK" ∷ [], true)
unfolding step expire command starts_with number_after
accepted now later timer s free = rw free (rw (task_number timer) refl)

-- A free driver takes a task, answers OK, and stays on it to its end: whatever lines and time-outs
-- come in rounds that begin before then, the state is still that of the task.
pub task_kept :
    (now later timer : ℤ) (s : State) (events : List Event)
    → s.busy ≡ false
    → AllBefore (later +ℤ timer) events
    → let told = step (got_line now later (codes "task " ++ show_int timer)) s in
      (told.1 ≡ codes "OK" ∷ [])
      × ((run events told.0).0 ≡ record { busy = true; end_time = later +ℤ timer })
task_kept now later timer s events free h =
    rw (accepted now later timer s free)
      (refl, run_keeps events (record { busy = true; end_time = later +ℤ timer }) refl h)

-- At the end of its task a driver says so by itself, before it answers anything, and is free.
pub task_ends :
    (now : ℤ) (s : State)
    → s.busy ≡ true
    → leb_ℤ s.end_time now ≡ true
    → (step (timed_out now) s ≡ (record s { busy = false }, codes "Available" ∷ [], true))
      × ((later : ℤ) (buf : Text)
          → step (got_line now later buf) s ≡ (
            (command later buf (record s { busy = false })).0,
            codes "Available" ∷ (command later buf (record s { busy = false })).1 ∷ [],
            true,
          ))
unfolding step expire
task_ends now s b due = (ground arith, λ later buf. ground arith)

command_accepts :
    (later timer : ℤ) (s : State)
    → s.busy ≡ false
    → command later (codes "task " ++ show_int timer) s
      ≡ (record { busy = true; end_time = later +ℤ timer }, codes "OK")
unfolding command starts_with number_after
command_accepts later timer s free = rw (task_number timer, free) refl

-- A task that arrives in the round in which the last one ends is answered by two lines.
pub told_twice :
    (now later timer : ℤ) (s : State)
    → s.busy ≡ true
    → leb_ℤ s.end_time now ≡ true
    → step (got_line now later (codes "task " ++ show_int timer)) s ≡ (
      record { busy = true; end_time = later +ℤ timer },
      codes "Available" ∷ codes "OK" ∷ [],
      true,
    )
told_twice now later timer s b due =
    (task_ends now s b due).1 later (codes "task " ++ show_int timer)
    ∙ ap (λ (r : State × Text). (r.0, codes "Available" ∷ r.1 ∷ [], true))
        (command_accepts later timer (record s { busy = false }) refl)
