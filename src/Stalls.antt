-- ===== src/Stalls.antt =====
-- lab11/task.c: three buyers and a loader at five stalls, each stall with its mutex. The threads are
-- steps on a shared state; `rand ()` is an argument, log lines are left out.
pub mod Sums
pub mod Invariant
pub mod Supply
mod Tests
pub mod Served
pub mod Exclusion
use eltex_school.Base.{
  ℕ, zero, suc, ◌+◌, ◌-◌, ◌%◌, Bool, true, false, ◌&&◌, Option, none, some, List, [], ◌∷◌, ltb, leb,
  ◌==◌, if◌then◌else◌, length, set, get_or,
}

abbrev pub num_stalls : ℕ
num_stalls = 5

abbrev pub loader_add : ℕ
loader_add = 200

-- `locked` is the state of the mutex.
pub record Stall : Type 0 where
  pub goods : ℕ
  pub locked : Bool

abbrev pub no_stall : Stall
no_stall = record { goods = 0; locked = false }

unfoldable pub random_range : (rand min max : ℕ) → ℕ
random_range rand min max = min + rand % (max - min + 1)

-- Where a buyer is in its loop: before the test of `need` or asleep, about to try the mutex of a
-- stall, in a stall, past the loop, or returned after `buyers_finished++`.
pub data Place : Type 0 where
  outside : Place
  trying : (i : ℕ) → Place
  inside : (stall_index : ℕ) → Place
  leaving gone : Place

pub record Buyer : Type 0 where
  pub need : ℕ
  pub place : Place

-- Where the loader is: at the top of its loop, past the test, in a stall, or returned.
pub data Loader : Type 0 where
  at_top past_test : Loader
  loading : (stall_index : ℕ) → Loader
  returned : Loader

pub record System : Type 0 where
  pub stalls : List Stall
  pub buyers : List Buyer
  pub loader : Loader
  pub buyers_finished : ℕ

-- The loop in a stall, which the mutex makes one step: what is left of `need` and of `goods`.
unfoldable pub buy : (need goods : ℕ) → ℕ × ℕ
buy zero goods = (zero, goods)
buy (suc need) zero = (suc need, zero)
buy (suc need) (suc goods) = buy need goods

abbrev pub stall_at : ℕ → System → Stall
stall_at i y = get_or y.stalls i no_stall

-- `pthread_mutex_trylock` on stall `i`, or `usleep` where all were tried.
unfoldable pub try_stall : ℕ → System → Place × List Stall
try_stall i y =
    if leb num_stalls i
    then (outside, y.stalls)
    else if (stall_at i y).locked
    then (trying (i + 1), y.stalls)
    else (inside i, set y.stalls i (record (stall_at i y) { locked = true }))

-- What a buyer does next at a place, up to the next call on a mutex: its new state, the stalls, and
-- `buyers_finished`.
unfoldable pub buyer_at : Place → (need : ℕ) → System → Buyer × List Stall × ℕ
unfolding buy try_stall
buyer_at outside need y = (
  record { need = need; place = if need == 0 then leaving else trying 0 },
  y.stalls,
  y.buyers_finished,
)
buyer_at (trying i) need y =
    let next = try_stall i y in (record { need = need; place = next.0 }, next.1, y.buyers_finished)
buyer_at (inside i) need y =
    let left = buy need (stall_at i y).goods in
    (
      record { need = left.0; place = outside },
      set y.stalls i (record { goods = left.1; locked = false }),
      y.buyers_finished,
    )
buyer_at leaving need y = (record { need = need; place = gone }, y.stalls, y.buyers_finished + 1)
buyer_at gone need y = (record { need = need; place = gone }, y.stalls, y.buyers_finished)

-- What the loader does next at a place, for what `rand ()` gives it: it waits for a stall that is
-- locked.
unfoldable pub loader_at : Loader → (rand : ℕ) → System → System
loader_at at_top rand y = record y {
  loader = if leb 3 y.buyers_finished then returned else past_test;
}
loader_at past_test rand y =
    let i = rand % num_stalls in
    let s = stall_at i y in
    if s.locked
    then y
    else record y { stalls = set y.stalls i (record s { locked = true }); loader = loading i }
loader_at (loading i) rand y =
    let s = stall_at i y in
    record y {
      stalls = set y.stalls i (record { goods = s.goods + loader_add; locked = false });
      loader = at_top;
    }
loader_at returned rand y = y

pub data Turn : Type 0 where
  buyer : (i : ℕ) → Turn
  loader : (rand : ℕ) → Turn

abbrev pub no_buyer : Buyer
no_buyer = record { need = 0; place = gone }

unfoldable pub step : Turn → System → System
unfolding buyer_at loader_at
step (loader rand) y = loader_at y.loader rand y
step (buyer i) y =
    let b = get_or y.buyers i no_buyer in
    let next = buyer_at b.place b.need y in
    record y { buyers = set y.buyers i next.0; stalls = next.1; buyers_finished = next.2 }

-- Any order of turns of the four threads.
unfoldable pub run : List Turn → System → System
unfolding step
run [] y = y
run (t ∷ turns) y = run turns (step t y)

-- What `main` sets up, for what `rand ()` gives for each stall and to each buyer.
unfoldable pub start : (stock want : ℕ → ℕ) → System
unfolding random_range
start stock want =
    let opened : ℕ → Stall =
      λ i. record { goods = random_range (stock i) 900 1100; locked = false } in
    let waiting : ℕ → Buyer =
      λ i. record { need = random_range (want i) 9900 10100; place = outside } in
    record {
      stalls = opened 0 ∷ opened 1 ∷ opened 2 ∷ opened 3 ∷ opened 4 ∷ [];
      buyers = waiting 1 ∷ waiting 2 ∷ waiting 3 ∷ [];
      loader = at_top;
      buyers_finished = 0;
    }
