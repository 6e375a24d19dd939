-- ===== src/Stalls/Supply.antt =====
-- What is sold, bought and delivered.
use eltex_school.Base.{
  ℕ, zero, suc, ◌+◌, ◌≡◌, refl, true, false, List, [], ◌∷◌, arith, length, get_or, leb, Bool-cases,
  inl, inr, ◌⊎◌, ◌%◌, ltb, ltb→lt,
}
use eltex_school.Stalls.{
  num_stalls, loader_add, Stall, no_stall, Place, outside, trying, inside, leaving, gone, Buyer,
  no_buyer, Loader, at_top, past_test, loading, returned, System, buy, stall_at, try_stall,
  buyer_at, loader_at, Turn, step, run,
}
use eltex_school.Stalls.Sums.{sum, sum-set, beyond}
use eltex_school.Stalls.Invariant.{BuyerFits, LoaderFits, IsSystem, step-IsSystem}

abbrev pub goods_left : System → ℕ
goods_left y = sum (λ (s : Stall). s.goods) y.stalls

abbrev pub needed : System → ℕ
needed y = sum (λ (b : Buyer). b.need) y.buyers

-- What a turn of the loader brings.
unfoldable pub brought : Turn → System → ℕ
brought (Turn.buyer i) y = 0
brought (Turn.loader rand) y = elim y.loader [ loading i ↦ loader_add | _ ↦ 0 ]

-- What all turns of a run bring.
unfoldable pub delivered : List Turn → System → ℕ
delivered [] y = 0
delivered (t ∷ turns) y = brought t y + delivered turns (step t y)

buy-total : (n g : ℕ) → (buy n g).1 + n ≡ g + (buy n g).0
unfolding buy
buy-total zero g = omega arith
buy-total (suc n) zero = omega arith
buy-total (suc n) (suc g) = omega (arith, buy-total n g)

-- A loop in a stall ends with the need met or the stall empty.
pub buy_ends : (n g : ℕ) → ((buy n g).0 ≡ 0) ⊎ ((buy n g).1 ≡ 0)
unfolding buy
buy_ends zero g = inl refl
buy_ends (suc n) zero = inr refl
buy_ends (suc n) (suc g) = buy_ends n g

buyer_total :
    (p : Place) (need : ℕ) (y : System)
    → length y.stalls ≡ num_stalls
    → BuyerFits p need
    → sum (λ (s : Stall). s.goods) (buyer_at p need y).1 + need
      ≡ goods_left y + (buyer_at p need y).0.need
unfolding buyer_at
buyer_total outside need y h f = refl
buyer_total (trying i) need y h f = elim (Bool-cases (leb num_stalls i)) [
  | inl e ↦ unfold try_stall in rw e refl
  | inr e ↦ elim (Bool-cases (stall_at i y).locked) [
    | inl busy ↦ unfold try_stall in rw (e, busy) refl
    | inr free ↦
        let s : Stall = record (stall_at i y) { locked = true } in
        unfold try_stall in
        rw (e, free)
          (omega
            (arith, sum-set (λ (s : Stall). s.goods) y.stalls i s no_stall (ground (arith, h, e))))
  ]
]
buyer_total (inside i) need y h f =
    let left = buy need (stall_at i y).goods in
    omega (
      arith,
      sum-set (λ (s : Stall). s.goods) y.stalls i (record { goods = left.1; locked = false })
          no_stall (omega (arith, h, f)),
      buy-total need (stall_at i y).goods,
    )
buyer_total leaving need y h f = refl
buyer_total gone need y h f = refl

-- A buyer's step, with the change of its own need.
buyer_needed :
    (i : ℕ) (y : System)
    → IsSystem y
    → goods_left (step (Turn.buyer i) y) + needed y ≡ goods_left y + needed (step (Turn.buyer i) y)
unfolding step
buyer_needed i y v =
    let b = get_or y.buyers i no_buyer in
    let next = buyer_at b.place b.need y in
    let paid = buyer_total b.place b.need y v.five (v.buyers_fit i) in
    elim (Bool-cases (ltb i (length y.buyers))) [
      | inl within ↦ omega (
        arith,
        paid,
        sum-set (λ (b : Buyer). b.need) y.buyers i next.0 no_buyer
            (ltb→lt i (length y.buyers) within),
      )
      | inr out ↦
          let past = beyond y.buyers i next.0 no_buyer (ground (arith, out)) in
          rw (past.0, past.1) (unfold buyer_at in refl)
    ]

loader_total :
    (l : Loader) (rand : ℕ) (y : System)
    → length y.stalls ≡ num_stalls
    → LoaderFits l y.buyers_finished
    → (goods_left (loader_at l rand y) ≡ goods_left y + elim l [ loading i ↦ loader_add | _ ↦ 0 ])
      × (needed (loader_at l rand y) ≡ needed y)
unfolding loader_at
loader_total at_top rand y h f = (omega arith, refl)
loader_total past_test rand y h f = elim (Bool-cases (stall_at (rand % num_stalls) y).locked) [
  | inl e ↦ rw e (omega arith, refl)
  | inr e ↦
      let s : Stall = record (stall_at (rand % num_stalls) y) { locked = true } in
      rw e (
        omega (
          arith,
          sum-set (λ (s : Stall). s.goods) y.stalls (rand % num_stalls) s no_stall
              (omega (arith, h)),
        ),
        refl,
      )
]
loader_total (loading i) rand y h f =
    let s = stall_at i y in
    let full : Stall = record { goods = s.goods + loader_add; locked = false } in
    (
      omega
          (arith, sum-set (λ (s : Stall). s.goods) y.stalls i full no_stall (omega (arith, h, f))),
      refl,
    )
loader_total returned rand y h f = (omega arith, refl)

step_total :
    (t : Turn) (y : System)
    → IsSystem y
    → goods_left (step t y) + needed y ≡ goods_left y + needed (step t y) + brought t y
unfolding brought
step_total (Turn.buyer i) y v = omega (arith, buyer_needed i y v)
step_total (Turn.loader rand) y v =
    unfold step in
    let l = loader_total y.loader rand y v.five v.loader_fits in omega (arith, l.0, l.1)

-- From a system in order, in whatever order the threads take turns: what is left at the stalls and
-- what the buyers got is what was there and what the loader has brought.
pub run_total :
    (turns : List Turn) (y : System)
    → IsSystem y
    → goods_left (run turns y) + needed y ≡ goods_left y + needed (run turns y) + delivered turns y
unfolding run delivered
run_total [] y v = omega arith
run_total (t ∷ turns) y v =
    omega (arith, step_total t y v, run_total turns (step t y) (step-IsSystem t y v))
