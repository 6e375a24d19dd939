-- ===== src/Taxi/Wait/Size.antt =====
-- What a wait of the dispatcher leaves of its table.
use eltex_school.Base.{
  ℕ, suc, ◌≤◌, ◌≡◌, refl, Option, none, some, List, [], ◌∷◌, arith, length, Option-cases, inl, inr,
  get_elem?,
}
use eltex_school.Base.Int.{ℤ}
use eltex_school.Taxi.Table.{Driver}
use eltex_school.Taxi.Wait.{
  Ready, line, gone, Selected, scan_wait, Waited, replied, select_failed, still_waiting, wait_loop,
  wait_for_response,
}

scan_wait-le :
    (now pid : ℤ) (ready : ℕ → Option Ready) (ds : List Driver)
    → length (scan_wait now pid ready ds).0 ≤ length ds
unfolding scan_wait
scan_wait-le now pid ready [] = omega arith
scan_wait-le now pid ready (d ∷ ds) = one (scan_wait-le now pid ready ds) (ready d.read_fd) refl
  where
    one :
        length (scan_wait now pid ready ds).0 ≤ length ds
        → (r : Option Ready) → ready d.read_fd ≡ r
        → length (scan_wait now pid ready (d ∷ ds)).0 ≤ suc (length ds)
    one ih none e = rw (e, scan_wait) (omega (arith, ih))
    one ih (some gone) e = rw (e, scan_wait) (omega (arith, ih))
    one ih (some (line buf)) e = rw (e, scan_wait) (ground (arith, ih))

-- At most `n` drivers are left by a wait.
abbrev pub WaitedFits : ℕ → Waited → Type 0
WaitedFits n (replied buf ds) = length ds ≤ n
WaitedFits n (select_failed ds) = length ds ≤ n
WaitedFits n (still_waiting ds) = length ds ≤ n

wait_loop_fits :
    (n : ℕ) (pid : ℤ) (selects : List Selected) (ds : List Driver)
    → length ds ≤ n
    → WaitedFits n (wait_loop pid selects ds)
unfolding wait_loop
wait_loop_fits n pid [] ds h = h
wait_loop_fits n pid (s ∷ selects) ds h = elim (Option-cases s.ready) [
  | inl e ↦ rw (e, wait_loop) h
  | inr (ready, e) ↦
      let small : length (scan_wait s.now pid ready ds).0 ≤ n =
        omega (arith, scan_wait-le s.now pid ready ds) in
      elim (Option-cases (scan_wait s.now pid ready ds).1) [
        | inl q ↦ rw (e, wait_loop) (rw (q, wait_loop) (wait_loop_fits n pid selects _ small))
        | inr (buf, q) ↦ rw (e, wait_loop) (rw (q, wait_loop) small)
      ]
]

abbrev pub OptionFits : ℕ → Option Waited → Type 0
OptionFits n none = Unit {0}
OptionFits n (some w) = WaitedFits n w

pub wait_fits :
    (n i : ℕ) (selects : List Selected) (ds : List Driver)
    → length ds ≤ n
    → OptionFits n (wait_for_response i selects ds)
unfolding wait_for_response
wait_fits n i selects ds h = elim (Option-cases (get_elem? ds i)) [
  | inl e ↦ rw (e, wait_for_response) tt
  | inr (d, e) ↦ rw (e, wait_for_response) (wait_loop_fits n d.pid selects ds h)
]
