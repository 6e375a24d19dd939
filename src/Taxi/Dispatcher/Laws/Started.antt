-- ===== src/Taxi/Dispatcher/Laws/Started.antt =====
-- The table of the dispatcher over all rounds of `main`.
use eltex_school.Base.{◌≡◌, refl, List, [], ◌∷◌, arith}
use eltex_school.Taxi.Table.{Fleet, IsValid}
use eltex_school.Taxi.Dispatcher.{
  Output, Round, Step, goes_on, stops, waits, round, start, after_output, main_loop,
}
use eltex_school.Taxi.Dispatcher.Laws.Size.{StepIsValid, round-IsValid}

after_output-IsValid :
    (os : List Output) (s : Step) → StepIsValid s → StepIsValid (after_output os s)
after_output-IsValid os (goes_on f more) v = v
after_output-IsValid os (stops f) v = v
after_output-IsValid os waits v = tt

main_loop-IsValid : (rs : List Round) (f : Fleet) → IsValid f → StepIsValid (main_loop rs f)
unfolding main_loop
main_loop-IsValid [] f v = v
main_loop-IsValid (r ∷ rs) f v =
    next (λ g w. main_loop-IsValid rs g w) (round r f) refl (round-IsValid r f v)
  where
    next :
        ((g : Fleet) → IsValid g → StepIsValid (main_loop rs g))
        → (s : Step) → round r f ≡ s
        → StepIsValid (round r f)
        → StepIsValid (main_loop (r ∷ rs) f)
    next later (goes_on g os) e h =
        rw (e, main_loop) (after_output-IsValid os (main_loop rs g) (later g (rw e at h)))
    next later (stops g) e h = rw (e, main_loop) (rw e at h)
    next later waits e h = rw (e, main_loop) tt

-- From the start of the program, whatever is typed and whatever the drivers write or however they
-- end: the table has no more entries than there is memory for, after every round of `main` that ends
-- and when the loop stops.
pub started-IsValid : (rs : List Round) → StepIsValid (main_loop rs start)
started-IsValid rs = main_loop-IsValid rs start (record { within = omega arith })
