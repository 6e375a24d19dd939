-- ===== src/Stalls/Invariant.antt =====
-- What holds of the places, the needs and the number of finished buyers.
use eltex_school.Base.{
  ℕ, zero, suc, ◌+◌, ◌≤◌, ◌<◌, ◌≡◌, refl, ◌∙◌, List, [], ◌∷◌, arith, length, set, get_or, leb, ltb,
  ◌==◌, Bool-cases, inl, inr, length-set, ◌%◌, get_or-set, get_or-set_ne, subst, ap, ltb→lt, leb→le,
}
use eltex_school.Stalls.{
  num_stalls, Stall, Place, outside, trying, inside, leaving, gone, Buyer, no_buyer, Loader, at_top,
  past_test, loading, returned, System, stall_at, try_stall, buyer_at, loader_at, Turn, step, run,
  start,
}
use eltex_school.Stalls.Sums.{sum, sum-set, beyond}

-- The stall that a buyer is in exists, and a buyer that leaves needs nothing.
abbrev pub BuyerFits : Place → (need : ℕ) → Type 0
BuyerFits outside need = Unit {0}
BuyerFits (trying i) need = Unit {0}
BuyerFits (inside i) need = i < num_stalls
BuyerFits leaving need = need ≡ 0
BuyerFits gone need = need ≡ 0

-- The stall that the loader is in exists, and it returns after three buyers have finished.
abbrev pub LoaderFits : Loader → (buyers_finished : ℕ) → Type 0
LoaderFits at_top n = Unit {0}
LoaderFits past_test n = Unit {0}
LoaderFits (loading i) n = i < num_stalls
LoaderFits returned n = 3 ≤ n

abbrev pub is_gone : Place → ℕ
is_gone outside = 0
is_gone (trying i) = 0
is_gone (inside i) = 0
is_gone leaving = 0
is_gone gone = 1

abbrev pub AllFit : List Buyer → Type 0
AllFit bs = (k : ℕ) → BuyerFits (get_or bs k no_buyer).place (get_or bs k no_buyer).need

pub record IsSystem (y : System) : Type 0 where
  pub five : length y.stalls ≡ num_stalls
  pub buyers_fit : AllFit y.buyers
  pub loader_fits : LoaderFits y.loader y.buyers_finished
  pub counted : y.buyers_finished ≡ sum (λ (b : Buyer). is_gone b.place) y.buyers

-- What one buyer's step keeps.
record Stepped (p : Place) (y : System) (next : Buyer × List Stall × ℕ) : Type 0 where
  fits : BuyerFits next.0.place next.0.need
  same : length next.1 ≡ length y.stalls
  counts : next.2 + is_gone p ≡ y.buyers_finished + is_gone next.0.place
  grows : y.buyers_finished ≤ next.2

buyer_at-Stepped :
    (p : Place) (need : ℕ) (y : System) → BuyerFits p need → Stepped p y (buyer_at p need y)
unfolding buyer_at
buyer_at-Stepped outside need y f = elim (Bool-cases (need == 0)) [
  | inl e ↦
      rw e (record {
        fits = ground (arith, e);
        same = refl;
        counts = omega arith;
        grows = omega arith;
      })
  | inr e ↦ rw e (record { fits = tt; same = refl; counts = omega arith; grows = omega arith })
]
buyer_at-Stepped (trying i) need y f = elim (Bool-cases (leb num_stalls i)) [
  | inl e ↦
      unfold try_stall in
      rw e (record { fits = tt; same = refl; counts = omega arith; grows = omega arith })
  | inr e ↦ elim (Bool-cases (stall_at i y).locked) [
    | inl busy ↦
        unfold try_stall in
        rw (e, busy) (record { fits = tt; same = refl; counts = omega arith; grows = omega arith })
    | inr free ↦
        unfold try_stall in
        rw (e, free)
          (record {
            fits = ground (arith, e);
            same = length-set y.stalls i _;
            counts = omega arith;
            grows = omega arith;
          })
  ]
]
buyer_at-Stepped (inside i) need y f = record {
  fits = tt;
  same = length-set y.stalls i _;
  counts = omega arith;
  grows = omega arith;
}
buyer_at-Stepped leaving need y f = record {
  fits = f;
  same = refl;
  counts = omega arith;
  grows = omega arith;
}
buyer_at-Stepped gone need y f = record {
  fits = f;
  same = refl;
  counts = omega arith;
  grows = omega arith;
}

set-AllFit :
    (bs : List Buyer) (i : ℕ) (b : Buyer)
    → AllFit bs
    → BuyerFits b.place b.need
    → AllFit (set bs i b)
set-AllFit bs i b a f k = elim (Bool-cases (ltb i (length bs))) [
  | inr out ↦ rw ((beyond bs i b no_buyer (ground (arith, out))).0) (a k)
  | inl within ↦ elim (Bool-cases (i == k)) [
    | inl e ↦
        let same : i ≡ k = ground (arith, e) in
        let here : get_or (set bs i b) k no_buyer ≡ b =
          subst (λ j. get_or (set bs i b) j no_buyer ≡ b) same
            (get_or-set bs i b no_buyer (ground (arith, within))) in
        rw here f
    | inr e ↦ rw (get_or-set_ne bs i k b no_buyer (λ q. ground (arith, e, q))) (a k)
  ]
]

LoaderFits-grows : (l : Loader) (m n : ℕ) → LoaderFits l m → m ≤ n → LoaderFits l n
LoaderFits-grows at_top m n f h = tt
LoaderFits-grows past_test m n f h = tt
LoaderFits-grows (loading i) m n f h = f
LoaderFits-grows returned m n f h = omega (arith, f, h)

-- The count of the buyers that are gone, after one of them has changed.
gone_set :
    (bs : List Buyer) (i : ℕ) (b : Buyer) (m n : ℕ)
    → n + is_gone (get_or bs i no_buyer).place ≡ m + is_gone b.place
    → (get_or bs i no_buyer ≡ no_buyer → b ≡ no_buyer)
    → m ≡ sum (λ (b : Buyer). is_gone b.place) bs
    → n ≡ sum (λ (b : Buyer). is_gone b.place) (set bs i b)
gone_set bs i b m n e stays c = elim (Bool-cases (ltb i (length bs))) [
  | inl within ↦ omega (
    arith,
    e,
    c,
    sum-set (λ (b : Buyer). is_gone b.place) bs i b no_buyer (ltb→lt i (length bs) within),
  )
  | inr out ↦
      let past = beyond bs i b no_buyer (ground (arith, out)) in
      let same : is_gone b.place ≡ 1 = ap (λ (x : Buyer). is_gone x.place) (stays past.1) in
      let was : is_gone (get_or bs i no_buyer).place ≡ 1 =
        ap (λ (x : Buyer). is_gone x.place) past.1 in
      rw past.0 (omega (arith, e, c, same, was))
]

buyer-IsSystem : (i : ℕ) (y : System) → IsSystem y → IsSystem (step (Turn.buyer i) y)
unfolding step
buyer-IsSystem i y v =
    let b = get_or y.buyers i no_buyer in
    let s = buyer_at-Stepped b.place b.need y (v.buyers_fit i) in
    record {
      five = s.same ∙ v.five;
      buyers_fit = set-AllFit y.buyers i _ v.buyers_fit s.fits;
      loader_fits = LoaderFits-grows y.loader _ _ v.loader_fits s.grows;
      counted =
          gone_set y.buyers i _ y.buyers_finished _ s.counts
            (λ q. ap (λ (x : Buyer). (buyer_at x.place x.need y).0) q) v.counted;
    }

loader-IsSystem : (l : Loader) (rand : ℕ) (y : System) → IsSystem y → IsSystem (loader_at l rand y)
unfolding loader_at
loader-IsSystem at_top rand y v = elim (Bool-cases (leb 3 y.buyers_finished)) [
  | inl e ↦ rw e (record {
    five = v.five;
    buyers_fit = v.buyers_fit;
    counted = v.counted;
    loader_fits = leb→le 3 y.buyers_finished e;
  })
  | inr e ↦
      rw e
        (record { five = v.five; buyers_fit = v.buyers_fit; counted = v.counted; loader_fits = tt })
]
loader-IsSystem past_test rand y v = elim (Bool-cases (stall_at (rand % num_stalls) y).locked) [
  | inl e ↦ rw e v
  | inr e ↦ rw e (record {
    five = length-set y.stalls _ _ ∙ v.five;
    buyers_fit = v.buyers_fit;
    counted = v.counted;
    loader_fits = omega arith;
  })
]
loader-IsSystem (loading i) rand y v = record {
  five = length-set y.stalls _ _ ∙ v.five;
  buyers_fit = v.buyers_fit;
  counted = v.counted;
  loader_fits = tt;
}
loader-IsSystem returned rand y v = v

pub step-IsSystem : (t : Turn) (y : System) → IsSystem y → IsSystem (step t y)
step-IsSystem (Turn.buyer i) y v = buyer-IsSystem i y v
step-IsSystem (Turn.loader rand) y v = unfold step in loader-IsSystem y.loader rand y v

pub run-IsSystem : (turns : List Turn) (y : System) → IsSystem y → IsSystem (run turns y)
unfolding run
run-IsSystem [] y v = v
run-IsSystem (t ∷ turns) y v = run-IsSystem turns (step t y) (step-IsSystem t y v)

start_fits : (stock want : ℕ → ℕ) → AllFit (start stock want).buyers
unfolding start
start_fits stock want zero = tt
start_fits stock want (suc zero) = tt
start_fits stock want (suc (suc zero)) = tt
start_fits stock want (suc (suc (suc k))) = refl

pub start-IsSystem : (stock want : ℕ → ℕ) → IsSystem (start stock want)
start-IsSystem stock want =
    unfold start in
    record { five = refl; buyers_fit = start_fits stock want; loader_fits = tt; counted = refl }
