-- ===== src/Ex/Rundown/Examples.antt =====
-- The run-down theorems on runs of two threads.
use exectos.Base.{◌≡◌, ◌≤◌, refl, List, [], ◌∷◌}
use exectos.Base.Threads.{act_at}
use exectos.Ex.Rundown.{
  acquiring, holding, at_wait_block, System, Event, calls, moves, completes, initialize_protection,
  complete_protection, run, step, move, call, acquire_protection, release_protection, holders,
  all_outside, rundown_active,
}
use exectos.Ex.Rundown.Safety.{IsSafe, run-IsSafe}
use exectos.Ex.Rundown.Refusal.{run-complete_protection}
use exectos.Ex.Rundown.Alone.{Acquired, alone, alone-acquiring}

-- Both threads read the count before either exchanges it, and both take the protection.
abbrev race : List Event
race = calls 0 ∷ calls 1 ∷ moves 0 ∷ moves 1 ∷ moves 0 ∷ moves 1 ∷ []

race-run : run (initialize_protection (7, all_outside 2)) race ≡ (0, holding ∷ holding ∷ [])
unfolding run step act_at move call acquire_protection initialize_protection
race-run = refl

-- Where nobody waits, the release after the run-down goes to a wait block at address 0.
unwaited :
    run
      (initialize_protection (7, all_outside 1))
      (calls 0 ∷ moves 0 ∷ moves 0 ∷ completes ∷ calls 0 ∷ moves 0 ∷ moves 0 ∷ [])
    ≡ (rundown_active, at_wait_block 0 ∷ [])
unfolding run step act_at move call acquire_protection release_protection initialize_protection
    complete_protection
unwaited = refl

run-IsSafe_example : IsSafe 2 (run (initialize_protection (7, all_outside 2)) race)
unfolding run step act_at move call acquire_protection initialize_protection
run-IsSafe_example = run-IsSafe 2 7 race (tt, (tt, (tt, (tt, (tt, (tt, tt))))))

abbrev one_inside : System
one_inside = (0, holding ∷ acquiring 2 ∷ [])

run-complete_protection_example :
    ((run (complete_protection one_inside) (moves 1 ∷ moves 1 ∷ calls 0 ∷ [])).0 ≡ rundown_active)
    × (holders (run (complete_protection one_inside) (moves 1 ∷ moves 1 ∷ calls 0 ∷ [])).1 ≤ 1)
run-complete_protection_example =
    run-complete_protection one_inside (moves 1 ∷ moves 1 ∷ calls 0 ∷ []) tt

alone-acquiring_example : Acquired 2 0 (alone 3 2 (acquiring 0))
alone-acquiring_example = alone-acquiring 2 0

-- Count is 2 more than what was read: the attempt writes back 0.
alone-written : alone 3 2 (acquiring 0) ≡ (0, holding)
unfolding alone move acquire_protection
alone-written = refl
