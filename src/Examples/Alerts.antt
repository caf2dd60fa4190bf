-- ===== src/Examples/Alerts.antt =====
-- The alert book and where a `resolve` goes (crates/core/src/lifecycle.rs, crates/core/src/lib.rs).
use ops_signal.Prelude.{
  String, true, false, some, none, List, [], ◌∷◌, ◌≡◌, refl, ◌==◌, contains, is_some, null, length,
  if◌then◌else◌, ok, ◌&&◌,
}
use ops_signal.Signal.{
  Signal, Action, trigger, acknowledge, resolve, error, default_input, from_input,
  effective_dedup_key,
}
use ops_signal.Routing.{Route, failover}
use ops_signal.Routing.Plan.{providers}
use ops_signal.Delivery.{Registry, ProviderOutcome, delivered, failed, pending_result}
use ops_signal.Lifecycle.{record_alerts, open_alerts, holder_names, lifecycle_plan, singles, by_key}
use ops_signal.Lifecycle.Holders.{Recording, record_all, life, is_held, state_of, open_alerts-life}
use ops_signal.Lifecycle.Book.{IsKeyed}
use ops_signal.Lifecycle.Plans.{is_reachable, names_any_severity, lifecycle_plan_goes}

abbrev signal : Action → Signal (Unit {0})
signal action =
    from_input (λ s. s) tt 1 10
      (record (default_input {M = Unit {0}}) {
        source = "airflow";
        event_type = "task_failed";
        title = "load failed";
        dedup_key = some "k";
        action = action;
      })

abbrev outcome : String → ProviderOutcome
outcome name = record { provider = name; status = delivered; error = none; attempts = 1 }

abbrev to : List ProviderOutcome → Action → Recording (Unit {0})
to os action = record {
  signal = signal action;
  result = record pending_result { deliveries = os };
  refs = [];
  at = 10;
  fault = λ o. false;
}

-- Slack and PagerDuty get the alert, then only PagerDuty gets it resolved.
abbrev events : List (Recording (Unit {0}))
events =
    to (outcome "slack" ∷ outcome "pagerduty" ∷ []) trigger
    ∷ to (outcome "pagerduty" ∷ record (outcome "slack") { status = failed } ∷ []) resolve
    ∷ []

slack_alone : holder_names (open_alerts false "k" (record_all events [])) ≡ "slack" ∷ []
unfolding open_alerts pending_result from_input default_input record_alerts effective_dedup_key
slack_alone = refl

-- An `acknowledge` that is delivered after the resolve makes the alert held again.
reopened :
    holder_names (
      open_alerts false "k"
        (record_all (to (outcome "pagerduty" ∷ []) acknowledge ∷ []) (record_all events [])))
    ≡ "slack" ∷ "pagerduty" ∷ []
unfolding open_alerts pending_result from_input default_input record_alerts effective_dedup_key
reopened = refl

open_alerts-life_example :
    IsKeyed (record_all events [])
    × contains "slack" (holder_names (open_alerts false "k" (record_all events [])))
      ≡ is_held (life "k" "slack" events (state_of "k" "slack" []))
open_alerts-life_example = open_alerts-life "k" "slack" events [] tt

-- PagerDuty resolves by key, Slack does not.
abbrev registry : Registry
registry name =
    if name == "pagerduty"
    then some (record { send_with_ref = λ prior k. ok none; resolves_by_key = true })
    else if name == "slack"
    then some (record { send_with_ref = λ prior k. ok none; resolves_by_key = false })
    else none

abbrev routes : List Route
routes =
    record {
      match_rule = record { severity = error ∷ []; environment = none; source = none };
      providers = "slack" ∷ "pagerduty" ∷ [];
      mode = failover;
      dedup = none;
      rate_limit = none;
      group_by = none;
      group_wait = none;
    }
    ∷ []

by_key_alone :
    (lifecycle_plan registry routes (signal resolve) []).targets ≡ ("pagerduty" ∷ []) ∷ []
unfolding lifecycle_plan from_input default_input
by_key_alone = refl

lifecycle_plan_goes_example :
    ((name : String)
      → contains name (providers (lifecycle_plan registry routes (signal resolve) [])) ≡ (
          if is_reachable registry []
          then contains name (holder_names []) && is_some (registry name)
          else names_any_severity name (signal resolve) routes && by_key registry name))
    × ((lifecycle_plan registry routes (signal resolve) []).targets
        ≡ singles (providers (lifecycle_plan registry routes (signal resolve) [])))
    × ((lifecycle_plan registry routes (signal resolve) []).grouped ≡ [])
    × (length (lifecycle_plan registry routes (signal resolve) []).suppressed
        ≡ (if null (lifecycle_plan registry routes (signal resolve) []).targets then 1 else 0))
lifecycle_plan_goes_example = lifecycle_plan_goes registry routes (signal resolve) []
