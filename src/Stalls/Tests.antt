-- ===== src/Stalls/Tests.antt =====
-- The theorems of the stalls at a concrete start.
use eltex_school.Base.{ℕ, zero, suc, ◌+◌, ◌≤◌, ◌≡◌, refl, false, List, [], ◌∷◌, ◌++◌, arith}
use eltex_school.Stalls.{Stall, Buyer, outside, at_top, returned, System, Turn, run, stall_at, buy}
use eltex_school.Stalls.Invariant.{IsSystem, AllFit}
use eltex_school.Stalls.Supply.{goods_left, needed, delivered, run_total}
use eltex_school.Stalls.Served.{all_served}
use eltex_school.Stalls.Exclusion.{IsExclusive, occupants, lock, one_inside}

abbrev shelf : Stall
shelf = record { goods = 3; locked = false }

abbrev wants : ℕ → Buyer
wants n = record { need = n; place = outside }

abbrev opening : System
opening = record {
  stalls = shelf ∷ shelf ∷ shelf ∷ shelf ∷ shelf ∷ [];
  buyers = wants 2 ∷ wants 4 ∷ wants 0 ∷ [];
  loader = at_top;
  buyers_finished = 0;
}

opening_fits : AllFit opening.buyers
opening_fits zero = tt
opening_fits (suc zero) = tt
opening_fits (suc (suc zero)) = tt
opening_fits (suc (suc (suc k))) = refl

opening-IsSystem : IsSystem opening
opening-IsSystem = record {
  five = refl;
  buyers_fit = opening_fits;
  loader_fits = tt;
  counted = refl;
}

opening-IsExclusive : IsExclusive opening
opening-IsExclusive zero h = refl
opening-IsExclusive (suc zero) h = refl
opening-IsExclusive (suc (suc zero)) h = refl
opening-IsExclusive (suc (suc (suc zero))) h = refl
opening-IsExclusive (suc (suc (suc (suc zero)))) h = refl
opening-IsExclusive (suc (suc (suc (suc (suc i))))) h = absurd (omega (arith, h))

-- One buyer goes round once: it looks, enters, buys, looks again, leaves, and is gone.
abbrev round : ℕ → List Turn
round i = Turn.buyer i ∷ Turn.buyer i ∷ Turn.buyer i ∷ Turn.buyer i ∷ []

abbrev day : List Turn
day =
    Turn.loader 0 ∷ Turn.loader 5 ∷ Turn.loader 0 ∷ round 0
    ++ Turn.buyer 0 ∷ round 1
    ++ Turn.buyer 1 ∷ Turn.buyer 2 ∷ Turn.buyer 2 ∷ Turn.loader 0 ∷ []

day_ends : (run day opening).loader ≡ returned
unfolding run buy
day_ends = refl

run_total_example :
    goods_left (run day opening) + needed opening
    ≡ goods_left opening + needed (run day opening) + delivered day opening
run_total_example = run_total day opening opening-IsSystem

all_served_example :
    (needed (run day opening) ≡ 0)
    × (goods_left (run day opening) + needed opening ≡ goods_left opening + delivered day opening)
all_served_example = all_served day opening opening-IsSystem refl day_ends

one_inside_example :
    (occupants 2 (run day opening) ≤ 1)
    × (occupants 2 (run day opening) ≡ lock (stall_at 2 (run day opening)))
one_inside_example = one_inside day opening 2 opening-IsSystem opening-IsExclusive (omega arith)
