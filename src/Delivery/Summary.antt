-- ===== src/Delivery/Summary.antt =====
-- `summarize` (crates/core/src/lib.rs).
use ops_signal.Prelude.{
  ℕ, max, String, Bool, true, false, not, ◌&&◌, Option, none, some, List, [], ◌∷◌, ◌++◌, map, null,
  length, last?, eqb, or_default, format, join, if◌then◌else◌,
}
use ops_signal.Routing.Plan.{DeliveryPlan}
use ops_signal.Delivery.{
  DeliveryStatus, pending, delivered, partial, failed, skipped, grouped, show_status,
  ProviderOutcome, DeliveryResult, Registry,
}
use ops_signal.Delivery.Tracker.{outcome_of}
use ops_signal.Delivery.Chain.{run}

-- `==` with `Pending` and with `Delivered`.
abbrev pub is_pending : DeliveryStatus → Bool
is_pending pending = true
is_pending _ = false

abbrev pub is_delivered : DeliveryStatus → Bool
is_delivered delivered = true
is_delivered _ = false

-- The outcomes of the providers of a target that were tried.
unfoldable pub tried : List ProviderOutcome → List String → List ProviderOutcome
tried outcomes [] = []
tried outcomes (name ∷ chain) =
    let rest = tried outcomes chain in
    elim (outcome_of name outcomes) [ none ↦ rest | some o ↦ o ∷ rest ]

-- A provider still at work when delivery was cut off has failed.
unfoldable pub cut : Option String → List ProviderOutcome → List ProviderOutcome
cut none os = os
cut (some msg) [] = []
cut (some msg) (o ∷ os) =
    (if is_pending o.status then record o { status = failed; error = some msg } else o)
    ∷ cut (some msg) os

-- The variables of the loop over the targets.
pub record Sums : Type 0 where
  pub deliveries : List ProviderOutcome
  pub delivered_by : List String
  pub errors : List String
  pub attempts : ℕ

abbrev pub no_sums : Sums
no_sums = record { deliveries = []; delivered_by = []; errors = []; attempts = 0 }

-- The `match tried.last()`; `only` says that the plan has one target.
unfoldable pub add_target : Bool → List ProviderOutcome → Sums → Sums
add_target only tries s = elim (last? tries) [
  | none ↦ record s {
    deliveries = s.deliveries ++ tries;
    errors = s.errors ++ "no provider delivered successfully" ∷ [];
  }
  | some o ↦
      if is_delivered o.status
      then record s {
        deliveries = s.deliveries ++ tries;
        delivered_by = s.delivered_by ++ o.provider ∷ [];
        attempts = max s.attempts o.attempts;
      }
      else (let error = or_default (show_status o.status) o.error in
          record s {
            deliveries = s.deliveries ++ tries;
            errors =
                if only
                then error ∷ []
                else s.errors ++ format (o.provider ∷ ": " ∷ error ∷ []) ∷ [];
            attempts = max s.attempts o.attempts;
          })
]

unfoldable pub add_targets :
    Bool → Option String → List ProviderOutcome → List (List String) → Sums → Sums
unfolding tried cut add_target
add_targets only cut_off outcomes [] s = s
add_targets only cut_off outcomes (chain ∷ targets) s =
    add_targets only cut_off outcomes targets
      (add_target only (cut cut_off (tried outcomes chain)) s)

-- The status, from the plan and the number of targets that delivered.
unfoldable pub overall : DeliveryPlan → ℕ → DeliveryStatus
overall plan reached =
    if null plan.targets && not (null plan.grouped)
    then grouped
    else if null plan.targets
    then skipped
    else if eqb reached (length plan.targets)
    then delivered
    else if eqb reached 0
    then failed
    else partial

-- `(!list.is_empty()).then(|| list.join(sep))`.
abbrev pub joined : String → List String → Option String
joined sep [] = none
joined sep (x ∷ xs) = some (join sep (x ∷ xs))

-- The errors; those of a plan that meant to send nothing are its suppressed lines.
abbrev pub final_errors : DeliveryPlan → List String → List String
final_errors plan errors =
    if null plan.targets && null plan.grouped then plan.suppressed else errors

-- `summarize`.
unfoldable pub summarize : DeliveryPlan → List ProviderOutcome → Option String → DeliveryResult
unfolding add_targets overall
summarize plan outcomes cut_off =
    let s = add_targets (eqb (length plan.targets) 1) cut_off outcomes plan.targets no_sums in
    record {
      status = overall plan (length s.delivered_by);
      provider = joined "," s.delivered_by;
      error = joined "; " (final_errors plan s.errors);
      attempts = s.attempts;
      deliveries = s.deliveries;
      suppressed = plan.suppressed;
      grouped = map (λ g. g.1) plan.grouped;
    }

module _ (providers : Registry) (prior_refs : String → Option String) where
  -- `deliver`, under a schedule that brings every target to its end.
  unfoldable pub deliver : List ℕ → DeliveryPlan → DeliveryResult
  unfolding summarize run
  deliver schedule plan =
      summarize plan (run providers prior_refs schedule plan.targets).outcomes none

  -- A delivery that a timeout stops after the steps of a schedule: the `Err` branch in
  -- `SignalClient::send`.
  unfoldable pub deliver_until : List ℕ → DeliveryPlan → String → DeliveryResult
  unfolding summarize run
  deliver_until schedule plan msg =
      summarize plan (run providers prior_refs schedule plan.targets).outcomes (some msg)
