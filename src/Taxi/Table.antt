-- ===== src/Taxi/Table.antt =====
-- The table of drivers of finalTask2/taxi.c: `drivers[0 .. num_drivers)` and `max_drivers`, the room
-- that is allocated. `realloc` is taken to succeed.
use eltex_school.Base.{
  ℕ, suc, zero, ◌+◌, ◌*◌, ◌≤◌, ◌≡◌, refl, Bool, false, Option, none, some, List, [], ◌∷◌, ◌++◌,
  arith, ltb, leb, ◌==◌, if◌then◌else◌, length, length-append, get_elem?, take, drop, ap,
  Bool-cases, inl, inr,
}
use eltex_school.Base.Int.{ℤ, pos, eq_ℤ}

pub record Driver : Type 0 where
  pub pid : ℤ
  pub read_fd : ℕ
  pub write_fd : ℕ
  pub busy : Bool
  pub end_time : ℤ

pub record Fleet : Type 0 where
  pub drivers : List Driver
  pub max_drivers : ℕ

-- `find_driver` from index `i` on; `none` is its -1.
unfoldable pub find_from : ℕ → ℤ → List Driver → Option ℕ
find_from i pid [] = none
find_from i pid (d ∷ ds) = if eq_ℤ d.pid pid then some i else find_from (i + 1) pid ds

unfoldable pub find_driver : ℤ → Fleet → Option ℕ
unfolding find_from
find_driver pid f = find_from 0 pid f.drivers

-- The shifting loop of `remove_driver`.
unfoldable pub remove_at : ℕ → List Driver → List Driver
remove_at i [] = []
remove_at zero (d ∷ ds) = ds
remove_at (suc i) (d ∷ ds) = d ∷ remove_at i ds

-- `remove_driver`, which closes both pipes of the driver and ignores an index out of range.
unfoldable pub remove_driver : ℕ → Fleet → Fleet
unfolding remove_at
remove_driver i f =
    if ltb i (length f.drivers) then record f { drivers = remove_at i f.drivers } else f

unfoldable pub add_driver : ℤ → (read_fd write_fd : ℕ) → Fleet → Fleet
add_driver pid read_fd write_fd f =
    let room =
      if leb f.max_drivers (length f.drivers)
      then (if f.max_drivers == 0 then 4 else f.max_drivers * 2)
      else f.max_drivers in
    record {
      drivers =
          f.drivers
          ++ record {
            pid = pid;
            read_fd = read_fd;
            write_fd = write_fd;
            busy = false;
            end_time = pos 0;
          }
            ∷ [];
      max_drivers = room;
    }

-- The entries lie within the memory that is allocated.
pub record IsValid (f : Fleet) : Type 0 where
  pub within : length f.drivers ≤ f.max_drivers

-- The first driver with the pid.
unfoldable pub driver_of : ℤ → List Driver → Option Driver
driver_of pid [] = none
driver_of pid (d ∷ ds) = if eq_ℤ d.pid pid then some d else driver_of pid ds

find_from-get_elem? :
    (j : ℕ) (pid : ℤ) (ds : List Driver) (i : ℕ)
    → find_from j pid ds ≡ some i
    → (k : ℕ) × (i ≡ j + k) × (get_elem? ds k ≡ driver_of pid ds)
unfolding find_from driver_of
find_from-get_elem? j pid [] i h = ground arith
find_from-get_elem? j pid (d ∷ ds) i h = elim (Bool-cases (eq_ℤ d.pid pid)) [
  | inl hit ↦ (0, ground arith, rw hit)
  | inr miss ↦
      let (k, q, g) = find_from-get_elem? (j + 1) pid ds i (rw miss at h) in
      (suc k, omega arith, rw miss g)
]

-- The index that `find_driver` gives is that of the first driver with the pid.
pub find_driver-get_elem? :
    (pid : ℤ) (f : Fleet) (i : ℕ)
    → find_driver pid f ≡ some i
    → get_elem? f.drivers i ≡ driver_of pid f.drivers
unfolding find_driver
find_driver-get_elem? pid f i h =
    let (k, q, g) = find_from-get_elem? 0 pid f.drivers i h in
    let q' : i ≡ k = omega arith in rw q' g

-- The table grows by doubling, from 4, before it would overrun.
pub add_driver-IsValid :
    (pid : ℤ) (read_fd write_fd : ℕ) (f : Fleet)
    → IsValid f
    → IsValid (add_driver pid read_fd write_fd f)
unfolding add_driver
add_driver-IsValid pid read_fd write_fd f v = ground (
  arith,
  v.within,
  length-append f.drivers (
      record { pid = pid; read_fd = read_fd; write_fd = write_fd; busy = false; end_time = pos 0 }
      ∷ []),
)

remove_at_lem : (i : ℕ) (ds : List Driver) → remove_at i ds ≡ take i ds ++ drop (suc i) ds
unfolding remove_at
remove_at_lem zero [] = refl
remove_at_lem (suc i) [] = refl
remove_at_lem zero (d ∷ ds) = refl
remove_at_lem (suc i) (d ∷ ds) = ap (◌∷◌ d) (remove_at_lem i ds)

length-remove_at-le : (i : ℕ) (ds : List Driver) → length (remove_at i ds) ≤ length ds
unfolding remove_at
length-remove_at-le i [] = omega arith
length-remove_at-le zero (d ∷ ds) = omega arith
length-remove_at-le (suc i) (d ∷ ds) = omega (arith, length-remove_at-le i ds)

pub remove_driver-IsValid : (i : ℕ) (f : Fleet) → IsValid f → IsValid (remove_driver i f)
unfolding remove_driver
remove_driver-IsValid i f v = ground (arith, v.within, length-remove_at-le i f.drivers)
