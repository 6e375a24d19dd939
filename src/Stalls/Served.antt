-- ===== src/Stalls/Served.antt =====
-- The end of the program, and the needs of the buyers.
use eltex_school.Base.{ℕ, suc, ◌+◌, ◌≤◌, ◌≡◌, refl, ◌∙◌, List, [], ◌∷◌, arith, length, length-set}
use eltex_school.Stalls.{
  Place, outside, trying, inside, leaving, gone, Buyer, Loader, at_top, past_test, loading,
  returned, System, loader_at, Turn, step, run,
}
use eltex_school.Stalls.Sums.{sum}
use eltex_school.Stalls.Invariant.{BuyerFits, is_gone, AllFit, LoaderFits, IsSystem, run-IsSystem}
use eltex_school.Stalls.Supply.{goods_left, needed, delivered, run_total}

is_gone-le : (p : Place) → is_gone p ≤ 1
is_gone-le outside = omega arith
is_gone-le (trying i) = omega arith
is_gone-le (inside i) = omega arith
is_gone-le leaving = omega arith
is_gone-le gone = omega arith

sum_gone-le : (bs : List Buyer) → sum (λ (b : Buyer). is_gone b.place) bs ≤ length bs
sum_gone-le [] = omega arith
sum_gone-le (b ∷ bs) = omega (arith, sum_gone-le bs, is_gone-le b.place)

need_gone : (p : Place) (need : ℕ) → BuyerFits p need → 1 ≤ is_gone p → need ≡ 0
need_gone outside need f h = elim h [ ]
need_gone (trying i) need f h = elim h [ ]
need_gone (inside i) need f h = elim h [ ]
need_gone leaving need f h = f
need_gone gone need f h = f

none_needed :
    (bs : List Buyer)
    → AllFit bs
    → length bs ≤ sum (λ (b : Buyer). is_gone b.place) bs
    → sum (λ (b : Buyer). b.need) bs ≡ 0
none_needed [] a h = refl
none_needed (b ∷ bs) a h =
    let rest = none_needed bs (λ k. a (suc k)) (omega (arith, h, is_gone-le b.place)) in
    let here = need_gone b.place b.need (a 0) (omega (arith, h, sum_gone-le bs)) in
    omega (arith, rest, here)

loader-buyers :
    (l : Loader) (rand : ℕ) (y : System) → length (loader_at l rand y).buyers ≡ length y.buyers
unfolding loader_at
loader-buyers at_top rand y = refl
loader-buyers past_test rand y = ground arith
loader-buyers (loading i) rand y = refl
loader-buyers returned rand y = refl

length-buyers : (turns : List Turn) (y : System) → length (run turns y).buyers ≡ length y.buyers
unfolding run step
length-buyers [] y = refl
length-buyers (Turn.buyer i ∷ turns) y =
    length-buyers turns (step (Turn.buyer i) y) ∙ length-set y.buyers i _
length-buyers (Turn.loader rand ∷ turns) y =
    length-buyers turns (step (Turn.loader rand) y) ∙ loader-buyers y.loader rand y

finished_enough : (l : Loader) (n : ℕ) → LoaderFits l n → l ≡ returned → 3 ≤ n
finished_enough at_top n f e = absurd (cc)
finished_enough past_test n f e = absurd (cc)
finished_enough (loading i) n f e = absurd (cc)
finished_enough returned n f e = f

-- From a system in order with three buyers, in whatever order the threads take turns: when the
-- loader has returned no buyer needs anything, and the goods they needed have left the stalls.
pub all_served :
    (turns : List Turn) (y : System)
    → IsSystem y
    → length y.buyers ≡ 3
    → (run turns y).loader ≡ returned
    → (needed (run turns y) ≡ 0)
      × (goods_left (run turns y) + needed y ≡ goods_left y + delivered turns y)
all_served turns y v three end =
    let w = run-IsSystem turns y v in
    let enough = finished_enough (run turns y).loader _ w.loader_fits end in
    let served =
      none_needed (run turns y).buyers w.buyers_fit
        (omega (arith, enough, w.counted, length-buyers turns y, three)) in
    (served, omega (arith, served, run_total turns y v))
