-- ===== src/Taxi/Dispatcher/Laws/Size.antt =====
-- The table of the dispatcher and the memory that is allocated for it.
use eltex_school.Base.{
  ℕ, suc, zero, ◌≤◌, ◌≡◌, refl, Bool, true, false, Option, none, some, List, [], ◌∷◌, ◌++◌, arith,
  length, Option-cases, inl, inr, Bool-cases, length-map,
}
use eltex_school.Base.Int.{ℤ, ◌+ℤ◌}
use eltex_school.Text.{Text, codes, show_int, str_eq, atoi, strtok, cut_at}
use eltex_school.Taxi.Table.{Driver, Fleet, find_driver, IsValid, add_driver-IsValid}
use eltex_school.Taxi.Status.{apply_status}
use eltex_school.Taxi.Wait.{
  Ready, line, gone, Waited, replied, select_failed, still_waiting, scan_idle,
}
use eltex_school.Taxi.Wait.Size.{OptionFits, wait_fits}
use eltex_school.Taxi.Dispatcher.{
  Output, wrote, Round, Result, Step, goes_on, stops, waits, create_driver, child, no_pipe,
  no_child, Fork, update_at, task_reply, prepend, send_task, status_reply, get_status, get_drivers,
  refresh, send_args, status_args, dispatch, command, after_command, poll, round, is_blank, on_task,
  fd_at,
}

length-update_at :
    (i : ℕ) (g : Driver → Driver) (ds : List Driver) → length (update_at i g ds) ≡ length ds
unfolding update_at
length-update_at i g [] = refl
length-update_at zero g (d ∷ ds) = refl
length-update_at (suc i) g (d ∷ ds) = omega (arith, length-update_at i g ds)

abbrev ResultIsValid : Result → Type 0
ResultIsValid none = Unit {0}
ResultIsValid (some (f, os)) = IsValid f

prepend-ResultIsValid :
    (os : List Output) (r : Result) → ResultIsValid r → ResultIsValid (prepend os r)
prepend-ResultIsValid os none v = v
prepend-ResultIsValid os (some (f, rest)) v = v

task_reply-IsValid :
    (now timer : ℤ) (i : ℕ) (f : Fleet) (w : Option Waited)
    → IsValid f
    → OptionFits f.max_drivers w
    → ResultIsValid (task_reply now timer i f w)
unfolding task_reply
task_reply-IsValid now timer i f none v h = v
task_reply-IsValid now timer i f (some (still_waiting ds)) v h = tt
task_reply-IsValid now timer i f (some (select_failed ds)) v h = record { within = h }
task_reply-IsValid now timer i f (some (replied buf ds)) v h =
    ground (arith, h, length-update_at i (on_task (now +ℤ timer)) ds)

status_reply-IsValid :
    (now : ℤ) (i : ℕ) (f : Fleet) (w : Option Waited)
    → IsValid f
    → OptionFits f.max_drivers w
    → ResultIsValid (status_reply now i f w)
unfolding status_reply
status_reply-IsValid now i f none v h = v
status_reply-IsValid now i f (some (still_waiting ds)) v h = tt
status_reply-IsValid now i f (some (select_failed ds)) v h = record { within = h }
status_reply-IsValid now i f (some (replied buf ds)) v h = record {
  within = omega (arith, h, length-update_at i (apply_status now buf) ds);
}

abbrev CommandIsValid : Option (Fleet × List Output × Bool) → Type 0
CommandIsValid none = Unit {0}
CommandIsValid (some (g, os, polled)) = IsValid g

module _ (r : Round) (f : Fleet) (v : IsValid f) where
  send_task-IsValid : (pid timer : ℤ) → ResultIsValid (send_task r pid timer f)
  unfolding send_task
  send_task-IsValid pid timer = elim (Option-cases (find_driver pid f)) [
    | inl e ↦ rw (e, send_task) v
    | inr (i, e) ↦
        rw (e, send_task)
          (prepend-ResultIsValid
            (wrote (fd_at i f.drivers) (codes "task " ++ (show_int timer ++ codes "\n")) ∷ []) _
            (task_reply-IsValid r.now timer i f _ v
              (wait_fits f.max_drivers i r.selects f.drivers v.within)))
  ]

  get_status-IsValid : (pid : ℤ) → ResultIsValid (get_status r pid f)
  unfolding get_status
  get_status-IsValid pid = elim (Option-cases (find_driver pid f)) [
    | inl e ↦ rw (e, get_status) v
    | inr (i, e) ↦
        rw (e, get_status)
          (prepend-ResultIsValid (wrote (fd_at i f.drivers) (codes "status\n") ∷ []) _ (
            status_reply-IsValid r.now i f _ v
              (wait_fits f.max_drivers i r.selects f.drivers v.within)))
  ]

  create_driver-IsValid : (k : Fork) → IsValid (create_driver k f).0
  unfolding create_driver
  create_driver-IsValid no_pipe = v
  create_driver-IsValid no_child = v
  create_driver-IsValid (child pid read_fd write_fd) = add_driver-IsValid pid read_fd write_fd f v

  send_args-IsValid : (a b : Option Text) → CommandIsValid (send_args r a b f)
  unfolding send_args
  send_args-IsValid none b = v
  send_args-IsValid (some a) none = v
  send_args-IsValid (some a) (some b) =
      sent (send_task r (atoi a) (atoi b) f) refl (send_task-IsValid (atoi a) (atoi b))
    where
      sent :
          (q : Result)
          → send_task r (atoi a) (atoi b) f ≡ q
          → ResultIsValid (send_task r (atoi a) (atoi b) f)
          → CommandIsValid (send_args r (some a) (some b) f)
      sent none e h = rw (e, send_args) tt
      sent (some (g, os)) e h = rw (e, send_args) (rw e at h)

  status_args-IsValid : (a : Option Text) → CommandIsValid (status_args r a f)
  unfolding status_args
  status_args-IsValid none = v
  status_args-IsValid (some a) = asked (get_status r (atoi a) f) refl (get_status-IsValid (atoi a))
    where
      asked :
          (q : Result)
          → get_status r (atoi a) f ≡ q
          → ResultIsValid (get_status r (atoi a) f)
          → CommandIsValid (status_args r (some a) f)
      asked none e h = rw (e, status_args) tt
      asked (some (g, os)) e h = rw (e, status_args) (rw e at h)

  get_drivers-IsValid : (now : ℤ) → IsValid (get_drivers now f).0
  unfolding get_drivers
  get_drivers-IsValid now = record {
    within = omega (arith, v.within, length-map f.drivers (refresh now));
  }

  dispatch-IsValid : (word args : Text) → CommandIsValid (dispatch r word args f)
  unfolding dispatch
  dispatch-IsValid word args = elim (Bool-cases (str_eq word (codes "create_driver"))) [
    | inl e ↦ rw (e, dispatch) (create_driver-IsValid r.fork)
    | inr e₁ ↦ elim (Bool-cases (str_eq word (codes "send_task"))) [
      | inl e ↦ rw (e₁, e, dispatch) (send_args-IsValid _ _)
      | inr e₂ ↦ elim (Bool-cases (str_eq word (codes "get_status"))) [
        | inl e ↦ rw (e₁, e₂, e, dispatch) (status_args-IsValid _)
        | inr e₃ ↦ elim (Bool-cases (str_eq word (codes "get_drivers"))) [
          | inl e ↦ rw (e₁, e₂, e₃, e, dispatch) (get_drivers-IsValid r.now)
          | inr e₄ ↦ rw (e₁, e₂, e₃, e₄, dispatch) v
        ]
      ]
    ]
  ]

  command-IsValid : (text : Text) → CommandIsValid (command r text f)
  unfolding command
  command-IsValid text = elim (Option-cases (strtok is_blank (cut_at 10 text))) [
    | inl e ↦ rw (e, command) v
    | inr ((word, args), e) ↦ rw (e, command) (dispatch-IsValid word args)
  ]

scan_idle-le :
    (now : ℤ) (ready : ℕ → Option Ready) (ds : List Driver)
    → length (scan_idle now ready ds) ≤ length ds
unfolding scan_idle
scan_idle-le now ready [] = omega arith
scan_idle-le now ready (d ∷ ds) = one (scan_idle-le now ready ds) (ready d.read_fd) refl
  where
    one :
        length (scan_idle now ready ds) ≤ length ds
        → (q : Option Ready) → ready d.read_fd ≡ q
        → length (scan_idle now ready (d ∷ ds)) ≤ suc (length ds)
    one ih none e = rw (e, scan_idle) (omega (arith, ih))
    one ih (some gone) e = rw (e, scan_idle) (omega (arith, ih))
    one ih (some (line buf)) e = rw (e, scan_idle) (omega (arith, ih))

poll-IsValid : (r : Round) (f : Fleet) → IsValid f → IsValid (poll r f)
poll-IsValid r f v = record {
  within = omega (arith, v.within, scan_idle-le r.now r.ready f.drivers);
}

-- The table that a round leaves, if it ends.
abbrev pub StepIsValid : Step → Type 0
StepIsValid (goes_on f os) = IsValid f
StepIsValid (stops f) = IsValid f
StepIsValid waits = Unit {0}

after_command-IsValid :
    (r : Round) (c : Option (Fleet × List Output × Bool))
    → CommandIsValid c
    → StepIsValid (after_command r c)
after_command-IsValid r none v = tt
after_command-IsValid r (some (f, os, true)) v = poll-IsValid r f v
after_command-IsValid r (some (f, os, false)) v = v

pub round-IsValid : (r : Round) (f : Fleet) → IsValid f → StepIsValid (round r f)
unfolding round
round-IsValid r f v = elim (Bool-cases r.selected) [
  | inr e ↦ rw e v
  | inl e ↦ elim (Option-cases r.stdin) [
    | inl q ↦ rw e (rw (q, round) (poll-IsValid r f v))
    | inr (none, q) ↦ rw e (rw (q, round) v)
    | inr (some text, q) ↦
        rw e (rw (q, round) (after_command-IsValid r _ (command-IsValid r f v text)))
  ]
]
