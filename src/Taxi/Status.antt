-- ===== src/Taxi/Status.antt =====
-- What the dispatcher makes of a line from a driver: the `strcmp`, `strncmp` and `sscanf` tests that
-- finalTask2/taxi.c writes out in `wait_for_response`, in `get_status` and at the end of `main`.
use eltex_school.Base.{ℕ, true, false, Option, none, some, if◌then◌else◌, drop}
use eltex_school.Base.Int.{ℤ, ◌+ℤ◌}
use eltex_school.Text.{Text, codes, str_eq, starts_with, scan_int}
use eltex_school.Taxi.Table.{Driver}

-- `sscanf (buf, "Busy %d", &rem)`, on a text that begins with the word: the number, if it reads one.
unfoldable pub number_after : ℕ → Text → Option ℤ
number_after n buf = (scan_int (drop n buf)).0

abbrev pub busy_until : ℤ → Driver → Option ℤ → Driver
busy_until now d none = d
busy_until now d (some rem) = record d { busy = true; end_time = now +ℤ rem }

unfoldable pub apply_status : (now : ℤ) → Text → Driver → Driver
unfolding number_after
apply_status now buf d =
    if str_eq buf (codes "Available")
    then record d { busy = false }
    else if starts_with buf (codes "Busy")
    then busy_until now d (number_after 4 buf)
    else d
