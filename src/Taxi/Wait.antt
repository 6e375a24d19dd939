-- ===== src/Taxi/Wait.antt =====
-- `wait_for_response` of finalTask2/taxi.c, and the loop at the end of `main` that takes what the
-- drivers wrote.
pub mod Laws
pub mod Size
use eltex_school.Base.{
  ℕ, suc, zero, ◌+◌, Bool, true, false, Option, none, some, List, [], ◌∷◌, if◌then◌else◌, ltb,
  length, get_elem?,
}
use eltex_school.Base.Int.{ℤ, eq_ℤ}
use eltex_school.Text.{Text}
use eltex_school.Taxi.Table.{Driver, Fleet}
use eltex_school.Taxi.Status.{apply_status}

-- What `read_line` brings from a pipe that `select` reports: a line that is not empty, or nothing
-- (the end of the pipe, an error, an empty line).
pub data Ready : Type 0 where
  line : Text → Ready
  gone : Ready

-- A return of `select`, with the pipes that it reports and what stands in them; `none` is an error.
-- `now` is what `time` then gives.
pub record Selected : Type 0 where
  pub now : ℤ
  pub ready : Option (ℕ → Option Ready)

-- The loop over the drivers at one return of `select`: the drivers left, and the line of the
-- expected one, at which the loop stops. A driver whose pipe has ended is removed.
unfoldable pub scan_wait :
    (now expected : ℤ) → (ℕ → Option Ready) → List Driver → List Driver × Option Text
scan_wait now expected ready [] = ([], none)
scan_wait now expected ready (d ∷ ds) =
    let rest = scan_wait now expected ready ds in
    elim (ready d.read_fd) [
      | none ↦ (d ∷ rest.0, rest.1)
      | some gone ↦ rest
      | some (line buf) ↦
          (if eq_ℤ d.pid expected
            then (apply_status now buf d ∷ ds, some buf)
            else (apply_status now buf d ∷ rest.0, rest.1))
    ]

pub data Waited : Type 0 where
  replied : Text → List Driver → Waited
  select_failed : List Driver → Waited
  still_waiting : List Driver → Waited

-- The outer loop, over the returns of `select` to come.
unfoldable pub wait_loop : (expected : ℤ) → List Selected → List Driver → Waited
wait_loop expected [] ds = still_waiting ds
wait_loop expected (s ∷ selects) ds = elim s.ready [
  | none ↦ select_failed ds
  | some ready ↦
      let r = scan_wait s.now expected ready ds in
      elim r.1 [ some buf ↦ replied buf r.0 | none ↦ wait_loop expected selects r.0 ]
]

-- `wait_for_response (idx)`; `none` for an index out of range.
unfoldable pub wait_for_response : ℕ → List Selected → List Driver → Option Waited
unfolding wait_loop
wait_for_response i selects ds = elim (get_elem? ds i) [
  | none ↦ none
  | some d ↦ some (wait_loop d.pid selects ds)
]

-- The loop at the end of `main`: every line is taken, every ended driver removed.
unfoldable pub scan_idle : (now : ℤ) → (ℕ → Option Ready) → List Driver → List Driver
scan_idle now ready [] = []
scan_idle now ready (d ∷ ds) =
    let rest = scan_idle now ready ds in
    elim (ready d.read_fd) [
      | none ↦ d ∷ rest
      | some gone ↦ rest
      | some (line buf) ↦ apply_status now buf d ∷ rest
    ]
