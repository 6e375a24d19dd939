-- ===== src/Taxi/Wait/Laws.antt =====
-- Waiting for a driver: whose line is returned, and when there is none to come.
use eltex_school.Base.{
  ℕ, ◌≡◌, ◌≢◌, sym, ◌∙◌, refl, false, Option, none, some, List, [], ◌∷◌, arith, inl, inr, ◌⊎◌,
  Option-cases,
}
use eltex_school.Base.Int.{ℤ, eq_ℤ}
use eltex_school.Text.{Text}
use eltex_school.Taxi.Table.{Driver}
use eltex_school.Taxi.Status.{apply_status, number_after}
use eltex_school.Taxi.Wait.{
  Ready, line, gone, Selected, scan_wait, replied, select_failed, wait_loop,
}

abbrev pub NoPid : ℤ → List Driver → Type 0
NoPid pid [] = Unit {0}
NoPid pid (d ∷ ds) = (eq_ℤ d.pid pid ≡ false) × NoPid pid ds

pid-apply_status : (now : ℤ) (buf : Text) (d : Driver) → (apply_status now buf d).pid ≡ d.pid
unfolding apply_status
pid-apply_status now buf d = elim (Option-cases (number_after 4 buf)) [
  | inl e ↦ ground (arith, e)
  | inr (rem, e) ↦ ground (arith, e)
]

-- At a return of `select`, no pipe brings a line from a driver of this pid.
abbrev pub Silent : ℤ → (ℕ → Option Ready) → List Driver → Type 0
Silent pid ready [] = Unit {0}
Silent pid ready (d ∷ ds) =
    ((eq_ℤ d.pid pid ≡ false) ⊎ (ready d.read_fd ≡ some gone)) × Silent pid ready ds

scan_wait-Silent :
    (now pid : ℤ) (ready : ℕ → Option Ready) (ds : List Driver)
    → Silent pid ready ds
    → ((scan_wait now pid ready ds).1 ≡ none) × NoPid pid (scan_wait now pid ready ds).0
unfolding scan_wait
scan_wait-Silent now pid ready [] h = (refl, tt)
scan_wait-Silent now pid ready (d ∷ ds) (h, hs) =
    one (scan_wait-Silent now pid ready ds hs) (ready d.read_fd) refl h
  where
    one :
        ((scan_wait now pid ready ds).1 ≡ none) × NoPid pid (scan_wait now pid ready ds).0
        → (r : Option Ready) → ready d.read_fd ≡ r
        → (eq_ℤ d.pid pid ≡ false) ⊎ (ready d.read_fd ≡ some gone)
        → ((scan_wait now pid ready (d ∷ ds)).1 ≡ none)
          × NoPid pid (scan_wait now pid ready (d ∷ ds)).0
    one ih none e (inl other) = rw (e, scan_wait) (ih.0, (other, ih.1))
    one ih none e (inr dead) = absurd (ground arith)
    one ih (some gone) e o = rw (e, scan_wait) ih
    one ih (some (line buf)) e (inl other) =
        rw (e, scan_wait)
          (rw (other, scan_wait) (ih.0, (rw (pid-apply_status now buf d) other, ih.1)))
    one ih (some (line buf)) e (inr dead) = absurd (ground arith)

Silent-of_NoPid :
    (pid : ℤ) (ready : ℕ → Option Ready) (ds : List Driver) → NoPid pid ds → Silent pid ready ds
Silent-of_NoPid pid ready [] h = tt
Silent-of_NoPid pid ready (d ∷ ds) h = (inl h.0, Silent-of_NoPid pid ready ds h.1)

wait_loop_silent :
    (pid : ℤ) (s : Selected) (selects : List Selected) (ds : List Driver) (ready : ℕ → Option Ready)
    → s.ready ≡ some ready
    → (scan_wait s.now pid ready ds).1 ≡ none
    → wait_loop pid (s ∷ selects) ds ≡ wait_loop pid selects (scan_wait s.now pid ready ds).0
unfolding wait_loop
wait_loop_silent pid s selects ds ready q silent = rw (q, wait_loop) (rw (silent, wait_loop) refl)

wait_loop_failed :
    (pid : ℤ) (s : Selected) (selects : List Selected) (ds : List Driver)
    → s.ready ≡ none
    → wait_loop pid (s ∷ selects) ds ≡ select_failed ds
unfolding wait_loop
wait_loop_failed pid s selects ds q = rw (q, wait_loop) refl

no_reply :
    (pid : ℤ) (selects : List Selected) (ds ds' : List Driver) (buf : Text)
    → NoPid pid ds
    → wait_loop pid selects ds ≢ replied buf ds'
no_reply pid [] ds ds' buf h e = unfold wait_loop in cc
no_reply pid (s ∷ selects) ds ds' buf h e = elim (Option-cases s.ready) [
  | inl q ↦ cc (wait_loop_failed pid s selects ds q)
  | inr (ready, q) ↦
      let (silent, still) = scan_wait-Silent s.now pid ready ds (Silent-of_NoPid pid ready ds h) in
      no_reply pid selects (scan_wait s.now pid ready ds).0 ds' buf still
        (sym (wait_loop_silent pid s selects ds ready q silent) ∙ e)
]

-- A driver that is waited for and whose pipe ends is removed, and the wait for it never returns a
-- reply: only an error of `select` ends it.
pub wait_for_dead :
    (pid now : ℤ) (ready : ℕ → Option Ready) (selects : List Selected) (ds ds' : List Driver)
    (buf : Text)
    → Silent pid ready ds
    → wait_loop pid (record { now = now; ready = some ready } ∷ selects) ds ≢ replied buf ds'
wait_for_dead pid now ready selects ds ds' buf h e =
    let s : Selected = record { now = now; ready = some ready } in
    let (silent, still) = scan_wait-Silent now pid ready ds h in
    no_reply pid selects (scan_wait now pid ready ds).0 ds' buf still
      (sym (wait_loop_silent pid s selects ds ready refl silent) ∙ e)
