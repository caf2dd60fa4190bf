-- ===== src/InFlight/Deadline.antt =====
-- The deadline of `InFlight::wait` (crates/core/src/inflight.rs) under the moves of the threads.
use ops_signal.Prelude.{
  ℕ, some, List, [], ◌∷◌, ◌≡◌, inl, inr, refl, ◌∙◌, arith, eqb, leb, Bool-cases, some-injective,
  subst, Option-cases,
}
use ops_signal.InFlight.{
  InFlight, Phase, testing, asleep, returned, Move, start, finish, wake, expire, test, tick, at_end,
  start_delivery, drop_guard, test_loop, in_phase, at_test, step, run_moves,
}

-- The deadline is fixed at the start of the wait.
abbrev pub HasDeadline : ℕ → InFlight → Type 0
HasDeadline n s = s.deadline ≡ n

test_loop-HasDeadline : (s : InFlight) → HasDeadline s.deadline (test_loop s)
unfolding test_loop
test_loop-HasDeadline s = elim (Bool-cases (eqb s.count 0)) [
  | inl e ↦ rw (e, test_loop) refl
  | inr e ↦ elim (Bool-cases (leb s.deadline s.now)) [
    | inl k ↦ rw (e, k, test_loop) refl
    | inr k ↦ rw (e, k, test_loop) refl
  ]
]

wake-HasDeadline :
    (p : Phase) (s s' : InFlight)
    → in_phase p (λ q. record s { phase = q }) ≡ some s'
    → HasDeadline s.deadline s'
wake-HasDeadline testing s s' h = ground arith
wake-HasDeadline (asleep end) s s' h = subst (HasDeadline s.deadline) (some-injective _ _ h) refl
wake-HasDeadline (returned n) s s' h = ground arith

at_end-HasDeadline :
    (p : Phase) (s s' : InFlight) → at_end p s ≡ some s' → HasDeadline s.deadline s'
at_end-HasDeadline testing s s' h = ground arith
at_end-HasDeadline (returned n) s s' h = ground arith
at_end-HasDeadline (asleep end) s s' h = elim (Bool-cases (leb end s.now)) [
  | inl e ↦ subst (HasDeadline s.deadline) (some-injective _ _ (rw e at h)) refl
  | inr e ↦ ground (arith, rw e at h)
]

at_test-HasDeadline :
    (p : Phase) (s s' : InFlight) → at_test p (test_loop s) ≡ some s' → HasDeadline s.deadline s'
at_test-HasDeadline testing s s' h =
    subst (HasDeadline s.deadline) (some-injective _ _ h) (test_loop-HasDeadline s)
at_test-HasDeadline (asleep end) s s' h = ground arith
at_test-HasDeadline (returned n) s s' h = ground arith

step-HasDeadline : (m : Move) (s s' : InFlight) → step m s ≡ some s' → HasDeadline s.deadline s'
unfolding step start_delivery drop_guard
step-HasDeadline start s s' h = subst (HasDeadline s.deadline) (some-injective _ _ h) refl
step-HasDeadline finish s s' h = elim (Bool-cases (eqb s.count 0)) [
  | inl e ↦ ground (arith, e)
  | inr e ↦ subst (HasDeadline s.deadline) (some-injective _ _ (rw (e, step, drop_guard) at h)) refl
]
step-HasDeadline (tick d) s s' h = subst (HasDeadline s.deadline) (some-injective _ _ h) refl
step-HasDeadline wake s s' h = wake-HasDeadline s.phase s s' h
step-HasDeadline expire s s' h = at_end-HasDeadline s.phase s s' h
step-HasDeadline test s s' h = at_test-HasDeadline s.phase s s' h

pub run_moves-HasDeadline :
    (ms : List Move) (s s' : InFlight) → run_moves ms s ≡ some s' → HasDeadline s.deadline s'
unfolding run_moves
run_moves-HasDeadline [] s s' h = subst (HasDeadline s.deadline) (some-injective _ _ h) refl
run_moves-HasDeadline (m ∷ ms) s s' h = elim (Option-cases (step m s)) [
  | inl e ↦ ground (arith, e)
  | inr (t, e) ↦ run_moves-HasDeadline ms t s' (rw (e, run_moves) at h) ∙ step-HasDeadline m s t e
]
