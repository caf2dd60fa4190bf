-- ===== src/Examples/Deliveries.antt =====
-- Deliveries (crates/core/src/lib.rs) to concrete providers.
use ops_signal.Prelude.{
  ℕ, suc, ◌==◌, String, Option, some, none, List, [], ◌∷◌, ◌≡◌, refl, false, ok, err, format, join,
  IsUnique, concat, if◌then◌else◌, eqb, all, any, null,
}
use ops_signal.Routing.Plan.{DeliveryPlan}
use ops_signal.Delivery.{
  Provider, Registry, delivered, partial, failed, skipped, grouped, ProviderOutcome, pending,
}
use ops_signal.Delivery.Chain.{retry, gave_up, max_retry_attempts, weave, deliver_chain}
use ops_signal.Delivery.Summary.{deliver, deliver_until, summarize, joined}
use ops_signal.Delivery.Retry.{retry_first, Explains, AllFailed}
use ops_signal.Delivery.Reports.{accepts}
use ops_signal.Delivery.Statuses.{reached, winners, summarize_status}
use ops_signal.Delivery.Schedules.{deliver_schedules}
use ops_signal.Delivery.EndToEnd.{deliver_status}

-- A provider that fails until an attempt.
abbrev after : ℕ → Provider
after n = record {
  send_with_ref = λ prior k. if eqb k n then ok none else err "HTTP 503";
  resolves_by_key = false;
}

-- `slack` accepts at the second attempt, `teams` never, `email` at once.
abbrev registry : Registry
registry name =
    if name == "slack"
    then some (after 2)
    else if name == "teams"
    then some (after 9)
    else if name == "email"
    then some (after 1)
    else none

abbrev no_refs : String → Option String
no_refs name = none

abbrev plan : DeliveryPlan
plan = record {
  targets = ("teams" ∷ "slack" ∷ []) ∷ ("email" ∷ []) ∷ ("pager" ∷ []) ∷ [];
  suppressed = [];
  grouped = [];
}

unique : IsUnique (concat plan.targets)
unique = (refl, (refl, (refl, (refl, tt))))

abbrev in_turns : List ℕ
in_turns = 0 ∷ 0 ∷ 0 ∷ 0 ∷ 1 ∷ 1 ∷ []

abbrev mixed : List ℕ
mixed = 1 ∷ 0 ∷ 0 ∷ 1 ∷ 0 ∷ 0 ∷ []

partial_result : deliver registry no_refs mixed plan ≡ record {
  status = partial;
  provider = some "slack,email";
  error = some "no provider delivered successfully";
  attempts = 2;
  deliveries =
      record { provider = "teams"; status = failed; error = some "HTTP 503"; attempts = 3 }
      ∷ record { provider = "slack"; status = delivered; error = none; attempts = 2 }
      ∷ record { provider = "email"; status = delivered; error = none; attempts = 1 }
      ∷ [];
  suppressed = [];
  grouped = [];
}
unfolding deliver deliver_chain join format
partial_result = refl

-- Stopped before `email` had an answer.
timed_out :
    (deliver_until registry no_refs (1 ∷ 0 ∷ 0 ∷ 0 ∷ []) plan "timed out").error
    ≡ some "slack: timed out; email: timed out; no provider delivered successfully"
unfolding deliver_until deliver_chain join format
timed_out = refl

deliver_schedules_example :
    deliver registry no_refs in_turns plan ≡ deliver registry no_refs mixed plan
unfolding weave deliver_chain
deliver_schedules_example = deliver_schedules registry no_refs plan in_turns mixed unique refl refl

deliver_status_example : (deliver registry no_refs mixed plan).status ≡ (
    if null plan.targets
    then (if null plan.grouped then skipped else grouped)
    else if all (accepts registry no_refs) plan.targets
    then delivered
    else if any (accepts registry no_refs) plan.targets
    then partial
    else failed)
unfolding weave deliver_chain
deliver_status_example = deliver_status registry no_refs plan mixed unique refl

retry_first_example :
    Explains
      (after 9)
      none
      1
      (suc max_retry_attempts)
      (retry (after 9) none 1 max_retry_attempts none)
    × ((e : String)
        → AllFailed (after 9) none 1 (suc max_retry_attempts)
        → (after 9).send_with_ref none 3 ≡ err e
        → retry (after 9) none 1 max_retry_attempts none ≡ gave_up (some e))
retry_first_example = retry_first (after 9) none

abbrev late : List ProviderOutcome
late =
    record { provider = "slack"; status = delivered; error = none; attempts = 1 }
    ∷ record { provider = "email"; status = pending; error = none; attempts = 0 }
    ∷ []

summarize_status_example :
    ((summarize plan late (some "timed out")).status ≡ (
      if null plan.targets
      then (if null plan.grouped then skipped else grouped)
      else if all (reached late) plan.targets
      then delivered
      else if any (reached late) plan.targets
      then partial
      else failed))
    × ((summarize plan late (some "timed out")).provider ≡ joined "," (winners late plan.targets))
summarize_status_example = summarize_status plan late (some "timed out")
