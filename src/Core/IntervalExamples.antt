-- ===== src/Core/IntervalExamples.antt =====
-- The theorem about intervals at a concrete one, whose period changes from 5 to 10.
use elfo.Base.{ℕ, ◌≡◌, refl, List, [], ◌∷◌, leb, done}
use elfo.Core.Interval
use elfo.Core.Interval.Plan.{Op, starts, polls, sets_period, run_all, ticks_follow_plan}

abbrev calls : List (Op ℕ)
calls =
    starts 100 5 ∷ polls 104 ∷ polls 105 ∷ polls 113 ∷ sets_period 10 ∷ polls 119 ∷ polls 120 ∷ []

ticks_follow_plan_example :
    run_all leb 2000000 1000000 (Interval.new_interval 1000000 42) calls
    ≡ done ((105, 42) ∷ (110, 42) ∷ (120, 42) ∷ [])
ticks_follow_plan_example = ticks_follow_plan leb 2000000 1000000 42 calls refl
