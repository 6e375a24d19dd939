-- ===== src/TimeQueue/Fifo.antt =====
-- The ring of requests as a queue, and the order in which requests are taken.
use eltex_school.Base.{
  ℕ, zero, suc, ◌+◌, ◌-◌, ◌%◌, ◌≡◌, ◌<◌, ◌≤◌, refl, ap, ap₂, sym, subst, ◌∙◌, Option, none, some,
  List, [], ◌∷◌, ◌++◌, ◌==◌, get_elem?, get_or, set, length, length-set, get_or-set, get_or-set_ne,
  arith, Bool-cases, inl, inr,
}
use mathlib.Core.List.{append_assoc, append-nil}
use eltex_school.TimeQueue.{
  queue_size, Server, Turn, accepts, puts, takes, answers, Event, accepted, taken, answered,
  accept_at, put_at, take_at, answer_at, step, run, start,
}

-- The `n` requests from the place `front` on.
unfoldable pub requests : (queue : List ℕ) → (front n : ℕ) → List ℕ
requests queue front zero = []
requests queue front (suc n) = get_or queue front 0 ∷ requests queue ((front + 1) % queue_size) n

abbrev pub pending : Server → List ℕ
pending s = requests s.queue s.front s.count

pub record IsQueue (s : Server) : Type 0 where
  pub ten : length s.queue ≡ queue_size
  pub inside : s.front < queue_size
  pub behind : s.rear ≡ (s.front + s.count) % queue_size
  pub fits : s.count ≤ queue_size

pub start-IsQueue : IsQueue start
start-IsQueue = record { ten = refl; inside = omega arith; behind = refl; fits = omega arith }

requests-last :
    (queue : List ℕ) (front n : ℕ)
    → front < queue_size
    → requests queue front (suc n)
      ≡ requests queue front n ++ get_or queue ((front + n) % queue_size) 0 ∷ []
unfolding requests
requests-last queue front zero h =
    let same : front ≡ (front + 0) % queue_size = omega (arith, h) in
    ap (λ i. get_or queue i 0 ∷ []) same
requests-last queue front (suc n) h =
    let same : ((front + 1) % queue_size + n) % queue_size ≡ (front + suc n) % queue_size =
      omega arith in
    ap (λ l. get_or queue front 0 ∷ l)
      (requests-last queue ((front + 1) % queue_size) n (omega arith)
        ∙ ap (λ i. requests queue ((front + 1) % queue_size) n ++ get_or queue i 0 ∷ []) same)

-- A write behind the requests does not change them.
requests-set :
    (queue : List ℕ) (front n k rear v : ℕ)
    → front < queue_size
    → n + k < queue_size
    → rear ≡ (front + n + k) % queue_size
    → requests (set queue rear v) front n ≡ requests queue front n
unfolding requests
requests-set queue front zero k rear v h fits e = refl
requests-set queue front (suc n) k rear v h fits e =
    ap₂ (λ (x : ℕ) (xs : List ℕ). x ∷ xs)
      (get_or-set_ne queue rear front v 0 (λ q. absurd (omega (arith, q, e, h, fits))))
      (requests-set queue ((front + 1) % queue_size) n k rear v (omega arith) (omega (arith, fits))
        (omega (arith, e)))

-- Putting a request at `rear`.
requests-put :
    (queue : List ℕ) (front n rear v : ℕ)
    → length queue ≡ queue_size
    → front < queue_size
    → n < queue_size
    → rear ≡ (front + n) % queue_size
    → requests (set queue rear v) front (suc n) ≡ requests queue front n ++ v ∷ []
requests-put queue front n rear v len h fits e =
    requests-last (set queue rear v) front n h
    ∙ ap₂ (λ (xs : List ℕ) (x : ℕ). xs ++ x ∷ [])
        (requests-set queue front n 0 rear v h (omega (arith, fits)) (omega (arith, e)))
        (subst (λ i. get_or (set queue rear v) i 0 ≡ v) e
          (get_or-set queue rear v 0 (omega (arith, len, e))))

abbrev pub held : (new_request : Option ℕ) → List ℕ
held none = []
held (some request) = request ∷ []

abbrev pub accepted_in : List Event → List ℕ
accepted_in [] = []
accepted_in (accepted fd ∷ es) = fd ∷ accepted_in es
accepted_in (taken fd ∷ es) = accepted_in es
accepted_in (answered fd ∷ es) = accepted_in es

abbrev pub taken_in : List Event → List ℕ
taken_in [] = []
taken_in (accepted fd ∷ es) = taken_in es
taken_in (taken fd ∷ es) = fd ∷ taken_in es
taken_in (answered fd ∷ es) = taken_in es

accepted_in-append :
    (es fs : List Event) → accepted_in (es ++ fs) ≡ accepted_in es ++ accepted_in fs
accepted_in-append [] fs = refl
accepted_in-append (accepted fd ∷ es) fs = ap (λ l. fd ∷ l) (accepted_in-append es fs)
accepted_in-append (taken fd ∷ es) fs = accepted_in-append es fs
accepted_in-append (answered fd ∷ es) fs = accepted_in-append es fs

pub taken_in-append : (es fs : List Event) → taken_in (es ++ fs) ≡ taken_in es ++ taken_in fs
taken_in-append [] fs = refl
taken_in-append (accepted fd ∷ es) fs = taken_in-append es fs
taken_in-append (taken fd ∷ es) fs = ap (λ l. fd ∷ l) (taken_in-append es fs)
taken_in-append (answered fd ∷ es) fs = taken_in-append es fs

-- What was accepted and not taken, in its order.
abbrev pub open_requests : Server → List ℕ
open_requests s = pending s ++ held s.new_request

-- A turn keeps the queue, and what it accepts goes behind what it takes from.
abbrev pub InOrder : Server → Server × List Event → Type 0
InOrder s r = IsQueue r.0 × (open_requests s ++ accepted_in r.1 ≡ taken_in r.1 ++ open_requests r.0)

stays : (s : Server) → IsQueue s → InOrder s (s, [])
stays s v = (v, append-nil (open_requests s))

accept_at-InOrder :
    (fd : ℕ) (s : Server) (o : Option ℕ)
    → o ≡ s.new_request
    → IsQueue s
    → InOrder s (accept_at fd s o)
unfolding accept_at
accept_at-InOrder fd s (some w) e v = stays s v
accept_at-InOrder fd s none e v = (
  record { ten = v.ten; inside = v.inside; behind = v.behind; fits = v.fits },
  ap (λ (o : Option ℕ). (pending s ++ held o) ++ fd ∷ []) (sym e)
      ∙ ap (λ l. l ++ fd ∷ []) (append-nil (pending s)),
)

put_at-InOrder :
    (s : Server) (o : Option ℕ) → o ≡ s.new_request → IsQueue s → InOrder s (put_at s o)
unfolding put_at
put_at-InOrder s none e v = stays s v
put_at-InOrder s (some w) e v = elim (Bool-cases (s.count == queue_size)) [
  | inl full ↦ rw full (stays s v)
  | inr room ↦
      let below : s.count < queue_size = ground (arith, room, v.fits) in
      let put = requests-put s.queue s.front s.count s.rear w v.ten v.inside below v.behind in
      rw room (
        record {
          ten = length-set s.queue s.rear w ∙ v.ten;
          inside = v.inside;
          behind = omega (arith, v.behind);
          fits = omega (arith, below);
        },
        append-nil (open_requests s)
            ∙ ap (λ (o : Option ℕ). pending s ++ held o) (sym e)
            ∙ sym put
            ∙ ap (requests (set s.queue s.rear w) s.front) (omega arith)
            ∙ sym (append-nil (requests (set s.queue s.rear w) s.front (s.count + 1))),
      )
]

requests-first :
    (queue : List ℕ) (front n : ℕ)
    → 0 < n
    → requests queue front n
      ≡ get_or queue front 0 ∷ requests queue ((front + 1) % queue_size) (n - 1)
unfolding requests
requests-first queue front zero h = elim h [ ]
requests-first queue front (suc n) h =
    ap (λ k. get_or queue front 0 ∷ requests queue ((front + 1) % queue_size) k) (omega arith)

take_at-InOrder :
    (id : ℕ) (s : Server) (o : Option (Option ℕ)) → IsQueue s → InOrder s (take_at id s o)
unfolding take_at
take_at-InOrder id s none v = stays s v
take_at-InOrder id s (some (some busy)) v = stays s v
take_at-InOrder id s (some none) v = elim (Bool-cases (s.count == 0)) [
  | inl empty ↦ rw empty (stays s v)
  | inr filled ↦
      let some_left : 0 < s.count = ground (arith, filled) in
      rw filled (
        record {
          ten = v.ten;
          inside = omega arith;
          behind = omega (arith, v.behind, some_left);
          fits = omega (arith, v.fits);
        },
        append-nil (open_requests s)
            ∙ ap (λ l. l ++ held s.new_request) (requests-first s.queue s.front s.count some_left),
      )
]

answer_at-InOrder :
    (id : ℕ) (s : Server) (o : Option (Option ℕ)) → IsQueue s → InOrder s (answer_at id s o)
unfolding answer_at
answer_at-InOrder id s none v = stays s v
answer_at-InOrder id s (some none) v = stays s v
answer_at-InOrder id s (some (some r)) v = (
  record { ten = v.ten; inside = v.inside; behind = v.behind; fits = v.fits },
  append-nil (open_requests s),
)

step-InOrder : (t : Turn) (s : Server) → IsQueue s → InOrder s (step t s)
unfolding step
step-InOrder (accepts fd) s v = accept_at-InOrder fd s s.new_request refl v
step-InOrder puts s v = put_at-InOrder s s.new_request refl v
step-InOrder (takes id) s v = take_at-InOrder id s (get_elem? s.workers id) v
step-InOrder (answers id) s v = answer_at-InOrder id s (get_elem? s.workers id) v

-- Whatever turns the threads take, in whatever order: the queue stays a queue of at most ten
-- requests, and the connections that are accepted are taken by the workers each once and in the
-- order in which they came; those not taken yet are in the queue, the last one perhaps with `main`.
pub run-InOrder : (ts : List Turn) (s : Server) → IsQueue s → InOrder s (run ts s)
unfolding run
run-InOrder [] s v = stays s v
run-InOrder (t ∷ ts) s v =
    let here = step t s in
    let (v', first) = step-InOrder t s v in
    let rest = run ts here.0 in
    let (v'', later) = run-InOrder ts here.0 v' in
    (
      v'',
      ap (λ l. open_requests s ++ l) (accepted_in-append here.1 rest.1)
          ∙ sym (append_assoc (open_requests s) (accepted_in here.1) (accepted_in rest.1))
          ∙ ap (λ l. l ++ accepted_in rest.1) first
          ∙ append_assoc (taken_in here.1) (open_requests here.0) (accepted_in rest.1)
          ∙ ap (λ l. taken_in here.1 ++ l) later
          ∙ sym (append_assoc (taken_in here.1) (taken_in rest.1) (open_requests rest.0))
          ∙ ap (λ l. l ++ open_requests rest.0) (sym (taken_in-append here.1 rest.1)),
    )
