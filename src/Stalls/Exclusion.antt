-- ===== src/Stalls/Exclusion.antt =====
-- Who is in a stall.
use eltex_school.Base.{
  ℕ, zero, suc, ◌+◌, ◌≤◌, ◌<◌, ◌≡◌, refl, true, false, List, [], ◌∷◌, arith, length, set, get_or,
  leb, ltb, ◌==◌, if◌then◌else◌, Bool-cases, inl, inr, ◌%◌, get_or-set, get_or-set_ne, subst, ap,
  ltb→lt,
}
use eltex_school.Stalls.{
  num_stalls, loader_add, Stall, no_stall, Place, outside, trying, inside, leaving, gone, Buyer,
  no_buyer, Loader, at_top, past_test, loading, returned, System, buy, stall_at, try_stall,
  buyer_at, loader_at, Turn, step, run, start,
}
use eltex_school.Stalls.Sums.{sum, sum-set, sum-ge, beyond}
use eltex_school.Stalls.Invariant.{BuyerFits, LoaderFits, IsSystem, step-IsSystem}

abbrev pub is_in : ℕ → Place → ℕ
is_in i outside = 0
is_in i (trying j) = 0
is_in i (inside j) = if i == j then 1 else 0
is_in i leaving = 0
is_in i gone = 0

abbrev pub loads_at : ℕ → Loader → ℕ
loads_at i at_top = 0
loads_at i past_test = 0
loads_at i (loading j) = if i == j then 1 else 0
loads_at i returned = 0

-- How many threads are in a stall.
abbrev pub occupants : ℕ → System → ℕ
occupants i y = sum (λ (b : Buyer). is_in i b.place) y.buyers + loads_at i y.loader

abbrev pub lock : Stall → ℕ
lock s = if s.locked then 1 else 0

-- A stall is locked exactly while one thread is in it.
abbrev pub IsExclusive : System → Type 0
IsExclusive y = (i : ℕ) → i < num_stalls → occupants i y ≡ lock (stall_at i y)

lock-set :
    (ss : List Stall) (i j : ℕ) (s : Stall)
    → j < length ss
    → lock (get_or (set ss j s) i no_stall)
      ≡ (if i == j then lock s else lock (get_or ss i no_stall))
lock-set ss i j s h = elim (Bool-cases (i == j)) [
  | inl e ↦
      let same : j ≡ i = ground (arith, e) in
      rw e (
        subst (λ k. lock (get_or (set ss j s) k no_stall) ≡ lock s) same
          (ap (λ (x : Stall). lock x) (get_or-set ss j s no_stall h)))
  | inr e ↦ rw (e, get_or-set_ne ss j i s no_stall (λ q. ground (arith, e, q))) refl
]

-- A buyer's step locks the stall that it enters and unlocks the one that it leaves.
buyer_locks :
    (i : ℕ) (p : Place) (need : ℕ) (y : System)
    → length y.stalls ≡ num_stalls
    → BuyerFits p need
    → is_in i p ≤ lock (stall_at i y)
    → is_in i (buyer_at p need y).0.place + lock (stall_at i y)
      ≡ is_in i p + lock (get_or (buyer_at p need y).1 i no_stall)
unfolding buyer_at
buyer_locks i outside need y h f o = ground arith
buyer_locks i (trying j) need y h f o = elim (Bool-cases (leb num_stalls j)) [
  | inl e ↦ unfold try_stall in rw e refl
  | inr e ↦ elim (Bool-cases (stall_at j y).locked) [
    | inl busy ↦ unfold try_stall in rw (e, busy) refl
    | inr free ↦
        let s : Stall = record (stall_at j y) { locked = true } in
        unfold try_stall in
        rw (e, free, lock-set y.stalls i j s (ground (arith, h, e)))
          (elim (Bool-cases (i == j)) [
            | inl q ↦
                let same : j ≡ i = ground (arith, q) in
                let unlocked : (stall_at i y).locked ≡ false =
                  subst (λ k. (stall_at k y).locked ≡ false) same free in
                rw (q, unlocked) refl
            | inr q ↦ rw q refl
          ])
  ]
]
buyer_locks i (inside j) need y h f o =
    let left = buy need (stall_at j y).goods in
    let s : Stall = record { goods = left.1; locked = false } in
    rw (lock-set y.stalls i j s (omega (arith, h, f))) (ground (arith, o))
buyer_locks i leaving need y h f o = refl
buyer_locks i gone need y h f o = refl

buyer-IsExclusive :
    (k : ℕ) (y : System) → IsSystem y → IsExclusive y → IsExclusive (step (Turn.buyer k) y)
unfolding step
buyer-IsExclusive k y v x i h =
    let b = get_or y.buyers k no_buyer in
    let next = buyer_at b.place b.need y in
    let one : is_in i b.place ≤ lock (stall_at i y) =
      omega (arith, x i h, sum-ge (λ (b : Buyer). is_in i b.place) y.buyers k no_buyer refl) in
    let moved = buyer_locks i b.place b.need y v.five (v.buyers_fit k) one in
    elim (Bool-cases (ltb k (length y.buyers))) [
      | inl within ↦ omega (
        arith,
        moved,
        x i h,
        sum-set (λ (b : Buyer). is_in i b.place) y.buyers k next.0 no_buyer
            (ltb→lt k (length y.buyers) within),
      )
      | inr out ↦
          let past = beyond y.buyers k next.0 no_buyer (ground (arith, out)) in
          rw (past.0, past.1) (unfold buyer_at in x i h)
    ]

loader-IsExclusive :
    (l : Loader) (rand : ℕ) (y : System)
    → length y.stalls ≡ num_stalls
    → LoaderFits l y.buyers_finished
    → y.loader ≡ l
    → IsExclusive y
    → IsExclusive (loader_at l rand y)
unfolding loader_at
loader-IsExclusive at_top rand y n f q x i h =
    let was : loads_at i y.loader ≡ 0 = ap (λ l. loads_at i l) q in
    elim (Bool-cases (leb 3 y.buyers_finished)) [
      | inl e ↦ rw e (omega (arith, was, x i h))
      | inr e ↦ rw e (omega (arith, was, x i h))
    ]
loader-IsExclusive past_test rand y n f q x i h =
    let j = rand % num_stalls in
    let s : Stall = record (stall_at j y) { locked = true } in
    let was : loads_at i y.loader ≡ 0 = ap (λ l. loads_at i l) q in
    elim (Bool-cases (stall_at j y).locked) [
      | inl busy ↦ rw busy (x i h)
      | inr free ↦
          rw (free, lock-set y.stalls i j s (omega (arith, n)))
            (elim (Bool-cases (i == j)) [
              | inl e ↦
                  let same : j ≡ i = ground (arith, e) in
                  let unlocked : lock (stall_at i y) ≡ 0 =
                    subst (λ k. lock (stall_at k y) ≡ 0) same (ap (λ b. if b then 1 else 0) free) in
                  rw e (omega (arith, was, x i h, unlocked))
              | inr e ↦ rw e (omega (arith, was, x i h))
            ])
    ]
loader-IsExclusive (loading j) rand y n f q x i h =
    let s : Stall = record { goods = (stall_at j y).goods + loader_add; locked = false } in
    let was : loads_at i y.loader ≡ (if i == j then 1 else 0) = ap (λ l. loads_at i l) q in
    rw (lock-set y.stalls i j s (omega (arith, n, f))) (ground (arith, was, x i h))
loader-IsExclusive returned rand y n f q x i h = x i h

run-IsExclusive :
    (turns : List Turn) (y : System) → IsSystem y → IsExclusive y → IsExclusive (run turns y)
unfolding run
run-IsExclusive [] y v x = x
run-IsExclusive (Turn.buyer k ∷ turns) y v x =
    run-IsExclusive turns (step (Turn.buyer k) y) (step-IsSystem (Turn.buyer k) y v)
      (buyer-IsExclusive k y v x)
run-IsExclusive (Turn.loader rand ∷ turns) y v x =
    run-IsExclusive turns (step (Turn.loader rand) y) (step-IsSystem (Turn.loader rand) y v)
      (unfold step in loader-IsExclusive y.loader rand y v.five v.loader_fits refl x)

lock-le : (s : Stall) → lock s ≤ 1
lock-le s = ground arith

-- From a system in order in which the locks say who is where, in whatever order the threads take
-- turns: at most one thread is in a stall, and then, and only then, its mutex is locked.
pub one_inside :
    (turns : List Turn) (y : System) (i : ℕ)
    → IsSystem y
    → IsExclusive y
    → i < num_stalls
    → (occupants i (run turns y) ≤ 1)
      × (occupants i (run turns y) ≡ lock (stall_at i (run turns y)))
one_inside turns y i v x h =
    let same = run-IsExclusive turns y v x i h in
    (omega (arith, same, lock-le (stall_at i (run turns y))), same)

pub start-IsExclusive : (stock want : ℕ → ℕ) → IsExclusive (start stock want)
unfolding start
start-IsExclusive stock want zero h = refl
start-IsExclusive stock want (suc zero) h = refl
start-IsExclusive stock want (suc (suc zero)) h = refl
start-IsExclusive stock want (suc (suc (suc zero))) h = refl
start-IsExclusive stock want (suc (suc (suc (suc zero)))) h = refl
start-IsExclusive stock want (suc (suc (suc (suc (suc i))))) h = absurd (omega (arith, h))
