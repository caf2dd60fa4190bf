-- ===== src/Examples/Waiting.antt =====
-- A wait for deliveries (crates/core/src/inflight.rs) in some courses of events.
use ops_signal.Prelude.{◌+◌, some, List, [], ◌∷◌, ◌≡◌, refl, inl}
use ops_signal.InFlight.{
  InFlight, returned, testing, Move, finish, wake, expire, test, tick, wait, run_moves, step,
  drop_guard, test_loop,
}
use ops_signal.InFlight.Waits.{Sound, Ends, wait-Ends}

-- The last of two deliveries ends while the thread sleeps.
abbrev last_ends : List Move
last_ends = test ∷ finish ∷ wake ∷ test ∷ tick 3 ∷ finish ∷ []

abbrev woken : InFlight
woken = record { count = 0; now = 13; deadline = 60; phase = testing }

runs_to_woken : run_moves last_ends (wait 2 10 50) ≡ some woken
unfolding run_moves wait step drop_guard test_loop
runs_to_woken = refl

wait-Ends_example : Sound woken × (woken.deadline ≡ 10 + 50) × Ends woken
wait-Ends_example = wait-Ends 2 10 50 last_ends woken runs_to_woken (inl refl)

-- The time is over with two deliveries unfinished.
times_out :
    run_moves (test ∷ tick 60 ∷ expire ∷ test ∷ []) (wait 2 10 50)
    ≡ some (record { count = 2; now = 70; deadline = 60; phase = returned 2 })
unfolding run_moves wait step test_loop
times_out = refl
