-- ===== src/TimePool/Connections.antt =====
-- What becomes of the connections that are accepted.
use eltex_school.Base.{
  ℕ, zero, suc, ◌+◌, ◌≡◌, refl, ap, true, false, Option, none, some, List, [], ◌∷◌, ◌++◌, ◌||◌,
  if◌then◌else◌, get_elem?, set, arith, Bool-cases, inl, inr,
}
use eltex_school.TimeQueue.Answers.{one, times, times-append}
use eltex_school.TimePool.{
  Worker, Main, accepting, looking, Server, Turn, accepts, looks, wakes, finishes, Event, accepted,
  answered, dropped, accept_at, look_at, look, wake_at, finish_at, step, run,
}

abbrev pub accepted_in : List Event → List ℕ
accepted_in [] = []
accepted_in (accepted fd ∷ es) = fd ∷ accepted_in es
accepted_in (answered fd ∷ es) = accepted_in es
accepted_in (dropped fd ∷ es) = accepted_in es

abbrev pub answered_in : List Event → List ℕ
answered_in [] = []
answered_in (accepted fd ∷ es) = answered_in es
answered_in (answered fd ∷ es) = fd ∷ answered_in es
answered_in (dropped fd ∷ es) = answered_in es

abbrev pub dropped_in : List Event → List ℕ
dropped_in [] = []
dropped_in (accepted fd ∷ es) = dropped_in es
dropped_in (answered fd ∷ es) = dropped_in es
dropped_in (dropped fd ∷ es) = fd ∷ dropped_in es

accepted_in-append :
    (es fs : List Event) → accepted_in (es ++ fs) ≡ accepted_in es ++ accepted_in fs
accepted_in-append [] fs = refl
accepted_in-append (accepted fd ∷ es) fs = ap (λ l. fd ∷ l) (accepted_in-append es fs)
accepted_in-append (answered fd ∷ es) fs = accepted_in-append es fs
accepted_in-append (dropped fd ∷ es) fs = accepted_in-append es fs

answered_in-append :
    (es fs : List Event) → answered_in (es ++ fs) ≡ answered_in es ++ answered_in fs
answered_in-append [] fs = refl
answered_in-append (accepted fd ∷ es) fs = answered_in-append es fs
answered_in-append (answered fd ∷ es) fs = ap (λ l. fd ∷ l) (answered_in-append es fs)
answered_in-append (dropped fd ∷ es) fs = answered_in-append es fs

dropped_in-append : (es fs : List Event) → dropped_in (es ++ fs) ≡ dropped_in es ++ dropped_in fs
dropped_in-append [] fs = refl
dropped_in-append (accepted fd ∷ es) fs = dropped_in-append es fs
dropped_in-append (answered fd ∷ es) fs = dropped_in-append es fs
dropped_in-append (dropped fd ∷ es) fs = ap (λ l. fd ∷ l) (dropped_in-append es fs)

-- The connections of the workers, and of the main thread.
abbrev pub with_worker : ℕ → Worker → ℕ
with_worker a w = if w.is_occupied || w.serving then one a w.client_fd else 0

abbrev pub with_workers : ℕ → List Worker → ℕ
with_workers a [] = 0
with_workers a (w ∷ ws) = with_workers a ws + with_worker a w

abbrev pub with_main : ℕ → Main → ℕ
with_main a accepting = 0
with_main a (looking fd i) = one a fd

abbrev pub open_connections : ℕ → Server → ℕ
open_connections a s = with_workers a s.workers + with_main a s.main

with_workers-set :
    (a id : ℕ) (ws : List Worker) (w v : Worker)
    → get_elem? ws id ≡ some w
    → with_workers a (set ws id v) + with_worker a w ≡ with_workers a ws + with_worker a v
with_workers-set a id [] w v e = absurd (ground (arith, e))
with_workers-set a zero (x ∷ ws) w v e =
    let same : x ≡ w = ground (arith, e) in omega (arith, ap (with_worker a) same)
with_workers-set a (suc id) (x ∷ ws) w v e = omega (arith, with_workers-set a id ws w v e)

-- Connections that were open or are accepted are answered, dropped or open.
abbrev pub Accounted : ℕ → Server → Server × List Event → Type 0
Accounted a s r =
    open_connections a s + times a (accepted_in r.1)
    ≡ times a (answered_in r.1) + times a (dropped_in r.1) + open_connections a r.0

accept_at-Accounted :
    (a fd : ℕ) (s : Server) (m : Main) → s.main ≡ m → Accounted a s (accept_at fd s m)
unfolding accept_at
accept_at-Accounted a fd s (looking fd' i) e = omega arith
accept_at-Accounted a fd s accepting e = omega (arith, ap (with_main a) e)

look_at-Accounted :
    (a fd i : ℕ) (s : Server) (o : Option Worker)
    → s.main ≡ looking fd i
    → get_elem? s.workers i ≡ o
    → Accounted a s (look_at s fd i o)
unfolding look_at
look_at-Accounted a fd i s none m e = omega (arith, ap (with_main a) m)
look_at-Accounted a fd i s (some w) m e = elim (Bool-cases w.serving) [
  | inl busy ↦ rw (busy, look_at) (omega arith)
  | inr idle ↦ elim (Bool-cases w.is_occupied) [
    | inl taken ↦ rw (idle, taken, look_at) (omega (arith, ap (with_main a) m))
    | inr free ↦
        let v : Worker = record { client_fd = fd; is_occupied = true; serving = false } in
        let none_there : with_worker a w ≡ 0 = rw (idle, free) refl in
        rw (idle, free, look_at)
          (omega (arith, ap (with_main a) m, with_workers-set a i s.workers w v e, none_there))
  ]
]

look-Accounted : (a : ℕ) (s : Server) (m : Main) → s.main ≡ m → Accounted a s (look s m)
unfolding look
look-Accounted a s accepting e = omega arith
look-Accounted a s (looking fd i) e = look_at-Accounted a fd i s (get_elem? s.workers i) e refl

wake_at-Accounted :
    (a id : ℕ) (s : Server) (o : Option Worker)
    → get_elem? s.workers id ≡ o
    → Accounted a s (wake_at id s o)
unfolding wake_at
wake_at-Accounted a id s none e = omega arith
wake_at-Accounted a id s (some w) e =
    ground (arith, with_workers-set a id s.workers w (record w { serving = true }) e)

finish_at-Accounted :
    (a id : ℕ) (s : Server) (o : Option Worker)
    → get_elem? s.workers id ≡ o
    → Accounted a s (finish_at id s o)
unfolding finish_at
finish_at-Accounted a id s none e = omega arith
finish_at-Accounted a id s (some w) e =
    let freed : Worker = record w { is_occupied = false; serving = false } in
    ground (arith, with_workers-set a id s.workers w freed e)

step-Accounted : (a : ℕ) (t : Turn) (s : Server) → Accounted a s (step t s)
unfolding step
step-Accounted a (accepts fd) s = accept_at-Accounted a fd s s.main refl
step-Accounted a looks s = look-Accounted a s s.main refl
step-Accounted a (wakes id) s = wake_at-Accounted a id s (get_elem? s.workers id) refl
step-Accounted a (finishes id) s = finish_at-Accounted a id s (get_elem? s.workers id) refl

-- Whatever turns the threads take, in whatever order: as often as a connection was open before or
-- is accepted, it is answered and closed, dropped, or open after, with a worker or with the main
-- thread; none is lost otherwise, and none is answered more often.
pub run-Accounted : (a : ℕ) (ts : List Turn) (s : Server) → Accounted a s (run ts s)
unfolding run
run-Accounted a [] s = omega arith
run-Accounted a (t ∷ ts) s =
    let here = step t s in
    let rest = run ts here.0 in
    omega (
      arith,
      ap (times a) (accepted_in-append here.1 rest.1),
      ap (times a) (answered_in-append here.1 rest.1),
      ap (times a) (dropped_in-append here.1 rest.1),
      times-append a (accepted_in here.1) (accepted_in rest.1),
      times-append a (answered_in here.1) (answered_in rest.1),
      times-append a (dropped_in here.1) (dropped_in rest.1),
      step-Accounted a t s,
      run-Accounted a ts here.0,
    )
