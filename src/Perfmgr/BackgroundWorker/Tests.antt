-- ===== src/Perfmgr/BackgroundWorker/Tests.antt =====
-- A pool with one worker and three packages.
use hardware_voltage_interfa.Base.{ℕ, ◌≡◌, refl, true, List, [], ◌∷◌, arith}
use hardware_voltage_interfa.Base.Int.{pos}
use hardware_voltage_interfa.Base.Dict.{find, contains, assign}
use hardware_voltage_interfa.Perfmgr.BackgroundWorker.{Package, Pool, add_worker, loop, schedule}
use hardware_voltage_interfa.Perfmgr.BackgroundWorker.Packages.{
  IsComplete, Step, worker_added, scheduled, looped, run, run-IsComplete,
}
use hardware_voltage_interfa.Perfmgr.BackgroundWorker.Turns.{IsTurn, loop-IsTurn}

abbrev due_at : ℕ → ℕ → Package
due_at t k = record { deadline = pos t; worker_id = 500; package_id = k }

abbrev empty : Pool ℕ
empty = record { running = true; package_queue = []; callback_map = [] }

empty-IsComplete : IsComplete empty
unfolding find
empty-IsComplete = record {
  waiting = λ id k w p fj fk. ground (arith, fj);
  packages_apart = λ id w fj. ground (arith, fj);
  workers_apart = tt;
}

abbrev steps : List (Step ℕ)
steps =
    worker_added 500
    ∷ scheduled 500 71 (pos 30)
    ∷ scheduled 500 72 (pos 10)
    ∷ looped (pos 5)
    ∷ looped (pos 12)
    ∷ []

-- The package 72 has run, and 71 waits.
one_is_left : (run steps empty).package_queue ≡ due_at 30 1 ∷ []
unfolding run schedule loop find add_worker contains assign
one_is_left = refl

run-IsComplete_example : IsComplete (run steps empty)
run-IsComplete_example = run-IsComplete steps empty empty-IsComplete

abbrev two_wait : Pool ℕ
two_wait = run (worker_added 500 ∷ scheduled 500 71 (pos 30) ∷ scheduled 500 72 (pos 10) ∷ []) empty

loop-IsTurn_example : IsTurn (pos 12) two_wait (loop (pos 12) two_wait)
loop-IsTurn_example = loop-IsTurn (pos 12) two_wait

-- The package 72 is handed over.
earliest_goes : (loop (pos 12) two_wait).1 ≡ (500, 72) ∷ []
unfolding run schedule loop find add_worker contains assign
earliest_goes = refl
