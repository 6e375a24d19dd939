-- ===== src/TimeQueue/Answers.antt =====
-- The requests that the workers take and answer.
use eltex_school.Base.{
  ℕ, zero, suc, ◌+◌, ◌≡◌, refl, ap, Option, none, some, List, [], ◌∷◌, ◌++◌, ◌==◌, if◌then◌else◌,
  get_elem?, get_or, set, arith, Bool-cases, inl, inr,
}
use eltex_school.TimeQueue.{
  Server, Turn, accepts, puts, takes, answers, Event, accepted, taken, answered, accept_at, put_at,
  take_at, answer_at, step, run, queue_size, start,
}
use eltex_school.TimeQueue.Fifo.{
  accepted_in, taken_in, taken_in-append, open_requests, start-IsQueue, run-InOrder, requests,
}

abbrev pub one : (a b : ℕ) → ℕ
one a b = if a == b then 1 else 0

-- How often a descriptor stands in a list.
abbrev pub times : (fd : ℕ) → List ℕ → ℕ
times fd [] = 0
times fd (e ∷ es) = times fd es + one fd e

abbrev pub busy : List (Option ℕ) → List ℕ
busy [] = []
busy (none ∷ ws) = busy ws
busy (some r ∷ ws) = r ∷ busy ws

abbrev pub answered_in : List Event → List ℕ
answered_in [] = []
answered_in (accepted fd ∷ es) = answered_in es
answered_in (taken fd ∷ es) = answered_in es
answered_in (answered fd ∷ es) = fd ∷ answered_in es

answered_in-append :
    (es fs : List Event) → answered_in (es ++ fs) ≡ answered_in es ++ answered_in fs
answered_in-append [] fs = refl
answered_in-append (accepted fd ∷ es) fs = answered_in-append es fs
answered_in-append (taken fd ∷ es) fs = answered_in-append es fs
answered_in-append (answered fd ∷ es) fs = ap (λ l. fd ∷ l) (answered_in-append es fs)

pub times-append : (fd : ℕ) (es fs : List ℕ) → times fd (es ++ fs) ≡ times fd fs + times fd es
times-append fd [] fs = omega arith
times-append fd (e ∷ es) fs = omega (arith, times-append fd es fs)

busy-set :
    (a r id : ℕ) (ws : List (Option ℕ))
    → get_elem? ws id ≡ some none
    → times a (busy (set ws id (some r))) ≡ times a (busy ws) + one a r
busy-set a r id [] e = absurd (ground (arith, e))
busy-set a r zero (none ∷ ws) e = refl
busy-set a r zero (some q ∷ ws) e = absurd (ground (arith, e))
busy-set a r (suc id) (none ∷ ws) e = busy-set a r id ws e
busy-set a r (suc id) (some q ∷ ws) e = omega (arith, busy-set a r id ws e)

busy-free :
    (a r id : ℕ) (ws : List (Option ℕ))
    → get_elem? ws id ≡ some (some r)
    → times a (busy ws) ≡ times a (busy (set ws id none)) + one a r
busy-free a r id [] e = absurd (ground (arith, e))
busy-free a r zero (none ∷ ws) e = absurd (ground (arith, e))
busy-free a r zero (some q ∷ ws) e =
    let same : q ≡ r = ground (arith, e) in ap (λ x. times a (busy ws) + one a x) same
busy-free a r (suc id) (none ∷ ws) e = busy-free a r id ws e
busy-free a r (suc id) (some q ∷ ws) e = omega (arith, busy-free a r id ws e)

-- The request `a` is with the workers as often as it was, and was taken, and was not answered.
abbrev pub Balanced : ℕ → Server → Server × List Event → Type 0
Balanced a s r =
    times a (taken_in r.1) + times a (busy s.workers)
    ≡ times a (answered_in r.1) + times a (busy r.0.workers)

take_at-Balanced :
    (a id : ℕ) (s : Server) (o : Option (Option ℕ))
    → get_elem? s.workers id ≡ o
    → Balanced a s (take_at id s o)
unfolding take_at
take_at-Balanced a id s none e = refl
take_at-Balanced a id s (some (some r)) e = refl
take_at-Balanced a id s (some none) e = elim (Bool-cases (s.count == 0)) [
  | inl empty ↦ rw empty refl
  | inr filled ↦ rw filled (omega (arith, busy-set a (get_or s.queue s.front 0) id s.workers e))
]

answer_at-Balanced :
    (a id : ℕ) (s : Server) (o : Option (Option ℕ))
    → get_elem? s.workers id ≡ o
    → Balanced a s (answer_at id s o)
unfolding answer_at
answer_at-Balanced a id s none e = refl
answer_at-Balanced a id s (some none) e = refl
answer_at-Balanced a id s (some (some r)) e = omega (arith, busy-free a r id s.workers e)

accept_at-Balanced : (a fd : ℕ) (s : Server) (o : Option ℕ) → Balanced a s (accept_at fd s o)
unfolding accept_at
accept_at-Balanced a fd s none = refl
accept_at-Balanced a fd s (some w) = refl

put_at-Balanced : (a : ℕ) (s : Server) (o : Option ℕ) → Balanced a s (put_at s o)
unfolding put_at
put_at-Balanced a s none = refl
put_at-Balanced a s (some w) = elim (Bool-cases (s.count == queue_size)) [
  | inl full ↦ rw full refl
  | inr room ↦ rw room refl
]

step-Balanced : (a : ℕ) (t : Turn) (s : Server) → Balanced a s (step t s)
unfolding step
step-Balanced a (accepts fd) s = accept_at-Balanced a fd s s.new_request
step-Balanced a puts s = put_at-Balanced a s s.new_request
step-Balanced a (takes id) s = take_at-Balanced a id s (get_elem? s.workers id) refl
step-Balanced a (answers id) s = answer_at-Balanced a id s (get_elem? s.workers id) refl

run-Balanced : (a : ℕ) (ts : List Turn) (s : Server) → Balanced a s (run ts s)
unfolding run
run-Balanced a [] s = refl
run-Balanced a (t ∷ ts) s =
    let here = step t s in
    let rest = run ts here.0 in
    omega (
      arith,
      ap (times a) (taken_in-append here.1 rest.1),
      ap (times a) (answered_in-append here.1 rest.1),
      times-append a (taken_in here.1) (taken_in rest.1),
      times-append a (answered_in here.1) (answered_in rest.1),
      step-Balanced a t s,
      run-Balanced a ts here.0,
    )

-- From the start of the server, whatever turns the threads take, in whatever order: each connection
-- is accepted as often as it has been answered and closed, is with a worker, and is in the queue or
-- with `main` on the way there: none is lost, none is answered twice.
pub all_accounted :
    (fd : ℕ) (ts : List Turn)
    → let r = run ts start in
      times fd (accepted_in r.1)
      ≡ times fd (answered_in r.1) + times fd (busy r.0.workers) + times fd (open_requests r.0)
unfolding requests
all_accounted fd ts =
    let r = run ts start in
    omega (
      arith,
      ap (times fd) (run-InOrder ts start start-IsQueue).1,
      times-append fd (taken_in r.1) (open_requests r.0),
      run-Balanced fd ts start,
    )
