-- ===== src/InFlight/Waits.antt =====
-- When `InFlight::wait` of crates/core/src/inflight.rs returns, and with what.
use ops_signal.Prelude.{
  ℕ, suc, ◌+◌, ◌-◌, ◌≤◌, ◌<◌, some, All, List, [], ◌∷◌, ◌≡◌, ◌⊎◌, inl, inr, refl, ap, arith, eqb,
  leb, true, if◌then◌else◌, Bool-cases, length, some-injective, subst, length, Option-cases,
}
use ops_signal.InFlight.Deadline.{run_moves-HasDeadline}
use ops_signal.InFlight.{
  InFlight, Phase, testing, asleep, returned, Move, start, finish, wake, expire, test, tick, at_end,
  notify, start_delivery, drop_guard, test_loop, in_phase, at_test, step, run_moves, wait,
}

-- What is known in each phase: nobody sleeps when nothing is in flight, or longer than to the
-- deadline, and an answer that is not 0 is given only when the time is over.
pub data IsSound (count now deadline : ℕ) : Phase → Type 0 where
  tests : IsSound count now deadline testing
  sleeps : {end : ℕ} → 0 < count → end ≡ deadline → IsSound count now deadline (asleep end)
  idle : IsSound count now deadline (returned 0)
  late : {n : ℕ} → deadline ≤ now → IsSound count now deadline (returned n)

abbrev pub Sound : InFlight → Type 0
Sound s = IsSound s.count s.now s.deadline s.phase

start-IsSound :
    (count now deadline : ℕ) (p : Phase)
    → IsSound count now deadline p
    → IsSound (suc count) now deadline p
start-IsSound count now deadline testing tests = tests
start-IsSound count now deadline (asleep end) (sleeps h u) = sleeps (omega arith) u
start-IsSound count now deadline (returned n) idle = idle
start-IsSound count now deadline (returned n) (late h) = late h

finish-IsSound :
    (count now deadline : ℕ) (p : Phase)
    → IsSound count now deadline p
    → IsSound (count - 1) now deadline (if eqb (count - 1) 0 then notify p else p)
finish-IsSound count now deadline testing tests = elim (Bool-cases (eqb (count - 1) 0)) [
  | inl e ↦ rw e tests
  | inr e ↦ rw e tests
]
finish-IsSound count now deadline (asleep end) (sleeps h u) =
    elim (Bool-cases (eqb (count - 1) 0)) [
      | inl e ↦ rw e tests
      | inr e ↦ rw e (sleeps (ground (arith, e)) u)
    ]
finish-IsSound count now deadline (returned n) idle = elim (Bool-cases (eqb (count - 1) 0)) [
  | inl e ↦ rw e idle
  | inr e ↦ rw e idle
]
finish-IsSound count now deadline (returned n) (late h) = elim (Bool-cases (eqb (count - 1) 0)) [
  | inl e ↦ rw e (late h)
  | inr e ↦ rw e (late h)
]

tick-IsSound :
    (count now deadline d : ℕ) (p : Phase)
    → IsSound count now deadline p
    → IsSound count (now + d) deadline p
tick-IsSound count now deadline d testing tests = tests
tick-IsSound count now deadline d (asleep end) (sleeps h u) = sleeps h u
tick-IsSound count now deadline d (returned n) idle = idle
tick-IsSound count now deadline d (returned n) (late h) = late (omega (arith, h))

test-Sound : (s : InFlight) → Sound (test_loop s)
unfolding test_loop
test-Sound s = elim (Bool-cases (eqb s.count 0)) [
  | inl e ↦ rw e idle
  | inr e ↦ elim (Bool-cases (leb s.deadline s.now)) [
    | inl k ↦ rw (e, k) (late (ground (arith, k)))
    | inr k ↦ rw (e, k) (sleeps (ground (arith, e)) (ground (arith, k)))
  ]
]

wake-Sound :
    (p : Phase) (s s' : InFlight) → in_phase p (λ q. record s { phase = q }) ≡ some s' → Sound s'
wake-Sound testing s s' h = ground arith
wake-Sound (asleep end) s s' h = subst Sound (some-injective _ _ h) tests
wake-Sound (returned n) s s' h = ground arith

at_test-Sound : (p : Phase) (s s' : InFlight) → Sound s → at_test p s ≡ some s' → Sound s'
at_test-Sound testing s s' k h = subst Sound (some-injective _ _ h) k
at_test-Sound (asleep end) s s' k h = ground arith
at_test-Sound (returned n) s s' k h = ground arith

at_end-Sound : (p : Phase) (s s' : InFlight) → at_end p s ≡ some s' → Sound s'
at_end-Sound testing s s' h = ground arith
at_end-Sound (returned n) s s' h = ground arith
at_end-Sound (asleep end) s s' h = elim (Bool-cases (leb end s.now)) [
  | inl e ↦ subst Sound (some-injective _ _ (rw e at h)) tests
  | inr e ↦ ground (arith, rw e at h)
]

step-Sound : (m : Move) (s s' : InFlight) → Sound s → step m s ≡ some s' → Sound s'
unfolding step start_delivery drop_guard
step-Sound start s s' k h =
    subst Sound (some-injective _ _ h) (start-IsSound s.count s.now s.deadline s.phase k)
step-Sound finish s s' k h = elim (Bool-cases (eqb s.count 0)) [
  | inl e ↦ ground (arith, e)
  | inr e ↦
      subst Sound (some-injective _ _ (rw (e, step, drop_guard) at h))
        (finish-IsSound s.count s.now s.deadline s.phase k)
]
step-Sound (tick d) s s' k h =
    subst Sound (some-injective _ _ h) (tick-IsSound s.count s.now s.deadline d s.phase k)
step-Sound wake s s' k h = wake-Sound s.phase s s' h
step-Sound expire s s' k h = at_end-Sound s.phase s s' h
step-Sound test s s' k h = at_test-Sound s.phase (test_loop s) s' (test-Sound s) h

pub run_moves-Sound :
    (ms : List Move) (s s' : InFlight) → Sound s → run_moves ms s ≡ some s' → Sound s'
unfolding run_moves
run_moves-Sound [] s s' k h = subst Sound (some-injective _ _ h) k
run_moves-Sound (m ∷ ms) s s' k h = elim (Option-cases (step m s)) [
  | inl e ↦ ground (arith, e)
  | inr (t, e) ↦ run_moves-Sound ms t s' (step-Sound m s t k e) (rw (e, run_moves) at h)
]

-- The waiting thread's own moves that end its wait, with the answer.
pub record Ends (s : InFlight) : Type 0 where
  pub moves : List Move
  pub few : length moves ≤ 2
  pub own : All (λ m. (m ≡ expire) ⊎ (m ≡ test)) moves
  pub answer : ℕ
  pub last : InFlight
  pub ran : run_moves moves s ≡ some last
  pub answered : last.phase ≡ returned answer
  pub says : (answer ≡ s.count) ⊎ (s.phase ≡ returned answer)

test_returns :
    (s : InFlight) → (s.count ≡ 0) ⊎ (s.deadline ≤ s.now) → (test_loop s).phase ≡ returned s.count
unfolding test_loop
test_returns s h = elim (Bool-cases (eqb s.count 0)) [
  | inl e ↦ rw (e, test_loop) (ap returned (ground (arith, e)))
  | inr e ↦ elim (Bool-cases (leb s.deadline s.now)) [
    | inl k ↦ rw (e, k, test_loop) refl
    | inr k ↦ ground (arith, e, k, h)
  ]
]

Ends-phase :
    (p : Phase) (s : InFlight)
    → s.phase ≡ p
    → IsSound s.count s.now s.deadline p
    → (s.count ≡ 0) ⊎ (s.deadline ≤ s.now)
    → Ends s
unfolding run_moves step
Ends-phase testing s e k h = record {
  moves = test ∷ [];
  few = omega arith;
  own = (inr refl, tt);
  answer = s.count;
  last = test_loop s;
  ran = rw e refl;
  answered = test_returns s h;
  says = inl refl;
}
Ends-phase (asleep end) s e (sleeps b u) (inl z) = ground (arith, z, b)
Ends-phase (asleep end) s e (sleeps b u) (inr d) =
    let s' : InFlight = record s { phase = testing } in
    let over : leb end s.now ≡ true = ground (arith, u, d) in
    record {
      moves = expire ∷ test ∷ [];
      few = omega arith;
      own = (inl refl, (inr refl, tt));
      answer = s.count;
      last = test_loop s';
      ran = rw e (rw over refl);
      answered = test_returns s' (inr d);
      says = inl refl;
    }
Ends-phase (returned n) s e k h = record {
  moves = [];
  few = omega arith;
  own = tt;
  answer = n;
  last = s;
  ran = refl;
  answered = e;
  says = inr e;
}

-- A wait ends, whatever the other threads did so far: once nothing is in flight or its time is over,
-- at most two moves of its own, the end of its `wait_timeout` and the test, make it return, with the
-- count of that time unless it had returned. No wake-up is lost, and none comes too late: it sleeps
-- only if something is in flight at that time, in a `wait_timeout` that is over at its deadline, which
-- is the timeout after its start. And it has answered that deliveries are unfinished only if its time
-- is over.
pub wait-Ends :
    (count now timeout : ℕ) (ms : List Move) (s : InFlight)
    → run_moves ms (wait count now timeout) ≡ some s
    → (s.count ≡ 0) ⊎ (s.deadline ≤ s.now)
    → Sound s × (s.deadline ≡ now + timeout) × Ends s
unfolding wait
wait-Ends count now timeout ms s h end =
    let sound = run_moves-Sound ms (wait count now timeout) s tests h in
    (
      sound,
      run_moves-HasDeadline ms (wait count now timeout) s h,
      Ends-phase s.phase s refl sound end,
    )
