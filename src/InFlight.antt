-- ===== src/InFlight.antt =====
-- crates/core/src/inflight.rs: the count of deliveries that have not finished, and a thread that
-- waits for them. The threads take turns: each `Move` is what one of them does while it holds the
-- lock. A thread that waits is asleep in `Condvar::wait_timeout` until it is notified, its time is
-- over (`expire`), or it wakes for no reason (`wake`).
pub mod Deadline
pub mod Waits
use ops_signal.Prelude.{
  ℕ, zero, suc, ◌+◌, ◌-◌, Option, none, some, List, [], ◌∷◌, eqb, leb, if◌then◌else◌,
}

-- Where the waiting thread is: at the test of its loop, asleep with the time at which the
-- `wait_timeout` is over, or done with an answer.
pub data Phase : Type 0 where
  testing : Phase
  asleep returned : ℕ → Phase

-- The count, the clock, and the waiting thread with its deadline.
pub record InFlight : Type 0 where
  pub count : ℕ
  pub now : ℕ
  pub deadline : ℕ
  pub phase : Phase

pub data Move : Type 0 where
  start finish wake expire test : Move
  tick : ℕ → Move

-- `Condvar::notify_all`.
abbrev pub notify : Phase → Phase
notify (asleep end) = testing
notify p = p

-- `InFlight::start`.
unfoldable pub start_delivery : InFlight → InFlight
start_delivery s = record s { count = suc s.count }

-- `impl Drop for Guard`; there are as many guards as the count.
unfoldable pub drop_guard : InFlight → Option InFlight
drop_guard s =
    if eqb s.count 0
    then none
    else some (record s {
      count = s.count - 1;
      phase = if eqb (s.count - 1) 0 then notify s.phase else s.phase;
    })

-- The loop of `InFlight::wait`, from its test to the next sleep or the end.
unfoldable pub test_loop : InFlight → InFlight
test_loop s =
    if eqb s.count 0
    then record s { phase = returned 0 }
    else if leb s.deadline s.now
    then record s { phase = returned s.count }
    else record s { phase = asleep (s.now + (s.deadline - s.now)) }

abbrev pub in_phase : Phase → (Phase → InFlight) → Option InFlight
in_phase (asleep end) next = some (next testing)
in_phase p next = none

-- The time given to `wait_timeout` is over.
abbrev pub at_end : Phase → InFlight → Option InFlight
at_end (asleep end) s = if leb end s.now then some (record s { phase = testing }) else none
at_end p s = none

abbrev pub at_test : Phase → InFlight → Option InFlight
at_test testing s = some s
at_test p s = none

-- One move; `none` if nobody can make it.
unfoldable pub step : Move → InFlight → Option InFlight
step start s = some (start_delivery s)
step finish s = drop_guard s
step (tick d) s = some (record s { now = s.now + d })
step wake s = in_phase s.phase (λ p. record s { phase = p })
step expire s = at_end s.phase s
step test s = at_test s.phase (test_loop s)

abbrev pub and_run : Option InFlight → (InFlight → Option InFlight) → Option InFlight
and_run none next = none
and_run (some s) next = next s

unfoldable pub run_moves : List Move → InFlight → Option InFlight
run_moves [] s = some s
run_moves (m ∷ ms) s = and_run (step m s) (run_moves ms)

-- `InFlight::wait` at its start.
unfoldable pub wait : ℕ → ℕ → ℕ → InFlight
wait count now timeout = record {
  count = count;
  now = now;
  deadline = now + timeout;
  phase = testing;
}
