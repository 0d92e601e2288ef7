-- ===== src/Limiter/Examples.antt =====
-- A limiter of two requests a second, and the witnesses of its theorems.
use accrue.Base.{ℕ, ◌≤◌, ◌≡◌, refl, arith, List, [], ◌∷◌}
use accrue.Limiter.{taken, must_sleep, look}
use accrue.Limiter.Window.{
  Reached, created, turn_taken, in_the_second_before, Reached-at_most_the_rate, look_after_sleeping,
}

two_taken : Reached 2 (5_000 ∷ 5_400 ∷ []) (5_000 ∷ 5_400 ∷ []) 5_400
unfolding look
two_taken = turn_taken (turn_taken (created 4_000) (omega arith) refl) (omega arith) refl

third_sleeps : look 2 5_700 (5_000 ∷ 5_400 ∷ []) ≡ must_sleep (5_000 ∷ 5_400 ∷ []) 300
unfolding look
third_sleeps = refl

Reached-at_most_the_rate_example : in_the_second_before 5_700 (5_000 ∷ 5_400 ∷ []) ≤ 2
Reached-at_most_the_rate_example = Reached-at_most_the_rate 5_700 two_taken (omega arith)

look_after_sleeping_example : (left' : List ℕ) × (look 2 6_001 (5_000 ∷ 5_400 ∷ []) ≡ taken left')
look_after_sleeping_example =
    look_after_sleeping 2 5_700 6_001 300 (5_000 ∷ 5_400 ∷ []) (5_000 ∷ 5_400 ∷ []) (omega arith)
      (omega arith) third_sleeps (omega arith)
