-- ===== src/TimePool/Blocked.antt =====
-- The main thread at a worker that serves.
use eltex_school.Base.{
  ℕ, zero, suc, ◌≡◌, ◌≢◌, refl, ◌∙◌, sym, subst, Bool, true, Option, none, some, List, [], ◌∷◌,
  ◌==◌, if◌then◌else◌, get_elem?, set, get_elem?-set_ne, arith, Bool-cases, inl, inr,
}
use eltex_school.TimePool.{
  Worker, looking, Server, Turn, accepts, looks, wakes, finishes, Event, accept_at, look_at, look,
  wake_at, finish_at, step, run,
}

-- The main thread has a connection at the worker `i`, which serves.
pub record IsBlocked (fd i : ℕ) (s : Server) : Type 0 where
  pub at : s.main ≡ looking fd i
  pub worker : Worker
  pub held : get_elem? s.workers i ≡ some worker
  pub serves : worker.serving ≡ true

-- No turn in which the worker `i` finishes.
abbrev pub NoFinish : ℕ → List Turn → Type 0
NoFinish i [] = Unit {0}
NoFinish i (accepts fd ∷ ts) = NoFinish i ts
NoFinish i (looks ∷ ts) = NoFinish i ts
NoFinish i (wakes id ∷ ts) = NoFinish i ts
NoFinish i (finishes id ∷ ts) = (id ≢ i) × NoFinish i ts

get_elem?-set_held {ℓ} :
    {A : Type ℓ} (xs : List A) (i : ℕ) (v x : A)
    → get_elem? xs i ≡ some x
    → get_elem? (set xs i v) i ≡ some v
get_elem?-set_held [] i v x e = absurd (ground (arith, e))
get_elem?-set_held (y ∷ xs) zero v x e = refl
get_elem?-set_held (y ∷ xs) (suc i) v x e = get_elem?-set_held xs i v x e

module _ (fd i : ℕ) (s : Server) (b : IsBlocked fd i s) where
  accept_at-IsBlocked : (fd' : ℕ) → IsBlocked fd i (accept_at fd' s s.main).0
  accept_at-IsBlocked fd' =
      subst (λ m. IsBlocked fd i (accept_at fd' s m).0) (sym b.at) (unfold accept_at in b)

  look-IsBlocked : IsBlocked fd i (look s s.main).0
  unfolding look look_at
  look-IsBlocked =
      subst (λ m. IsBlocked fd i (look s m).0) (sym b.at)
        (subst (λ o. IsBlocked fd i (look_at s fd i o).0) (sym b.held) (rw b.serves b))

  woken-IsBlocked :
      (id : ℕ) (w : Worker)
      → get_elem? s.workers id ≡ some w
      → IsBlocked fd i (record s { workers = set s.workers id (record w { serving = true }) })
  woken-IsBlocked id w e = elim (Bool-cases (id == i)) [
    | inl q ↦
        let same : id ≡ i = ground (arith, q) in
        let awake : Worker = record w { serving = true } in
        record {
          at = b.at;
          worker = awake;
          held =
              subst (λ k. get_elem? (set s.workers id awake) k ≡ some awake) same
                (get_elem?-set_held s.workers id awake w e);
          serves = refl;
        }
    | inr q ↦ record {
      at = b.at;
      worker = b.worker;
      held = get_elem?-set_ne s.workers _ (λ (r : id ≡ i). absurd (ground (arith, q, r))) ∙ b.held;
      serves = b.serves;
    }
  ]

  wake_at-IsBlocked :
      (id : ℕ) (o : Option Worker) → get_elem? s.workers id ≡ o → IsBlocked fd i (wake_at id s o).0
  unfolding wake_at
  wake_at-IsBlocked id none e = b
  wake_at-IsBlocked id (some w) e =
      let awake : Server = record s { workers = set s.workers id (record w { serving = true }) } in
      let either = λ (c : Bool).
        IsBlocked fd i (if◌then◌else◌ {A = Server × List Event} c (awake, []) (s, [])).0 in
      elim (Bool-cases w.is_occupied) [
        | inr idle ↦ subst either (sym idle) b
        | inl busy ↦ subst either (sym busy) (woken-IsBlocked id w e)
      ]

  finish_at-IsBlocked : (id : ℕ) (o : Option Worker) → id ≢ i → IsBlocked fd i (finish_at id s o).0
  unfolding finish_at
  finish_at-IsBlocked id none ne = b
  finish_at-IsBlocked id (some w) ne = elim (Bool-cases w.serving) [
    | inr idle ↦ rw idle b
    | inl busy ↦ rw busy (record {
      at = b.at;
      worker = b.worker;
      held = get_elem?-set_ne s.workers _ ne ∙ b.held;
      serves = b.serves;
    })
  ]

-- Once the main thread comes with a connection to a worker that serves, it stays there for as long
-- as this worker does not finish, whatever turns are taken otherwise: it neither gives the
-- connection to another worker, though others may be free, nor takes the next one.
pub run-IsBlocked :
    (ts : List Turn) (fd i : ℕ) (s : Server)
    → IsBlocked fd i s
    → NoFinish i ts
    → IsBlocked fd i (run ts s).0
unfolding run step
run-IsBlocked [] fd i s b n = b
run-IsBlocked (accepts fd' ∷ ts) fd i s b n =
    run-IsBlocked ts fd i (step (accepts fd') s).0 (accept_at-IsBlocked fd i s b fd') n
run-IsBlocked (looks ∷ ts) fd i s b n =
    run-IsBlocked ts fd i (step looks s).0 (look-IsBlocked fd i s b) n
run-IsBlocked (wakes id ∷ ts) fd i s b n =
    run-IsBlocked ts fd i (step (wakes id) s).0
      (wake_at-IsBlocked fd i s b id (get_elem? s.workers id) refl) n
run-IsBlocked (finishes id ∷ ts) fd i s b n =
    run-IsBlocked ts fd i (step (finishes id) s).0
      (finish_at-IsBlocked fd i s b id (get_elem? s.workers id) n.0) n.1
