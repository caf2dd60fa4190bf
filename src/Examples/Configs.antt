-- ===== src/Examples/Configs.antt =====
-- Routes of a config that are checked (crates/core/src/config.rs), and a plan on them.
use ops_signal.Prelude.{
  ℕ, String, true, false, none, some, List, [], ◌∷◌, ◌≡◌, refl, contains, Result, ok, err, format,
  join, decimal, decimal_before,
}
use ops_signal.Signal.{Signal, config, from_input}
use ops_signal.Routing.{Route, failover, matches, gates_signals}
use ops_signal.Routing.Plan.{providers, plan_with}
use ops_signal.Config.{
  Origin, ProvidersConfig, provider_names, check_routes, check_route, check_fields, check_providers,
}
use ops_signal.Config.Planned.{routes_of, plan_with-configured}
use ops_signal.Examples.Clients.{raising}

abbrev with_slack : ProvidersConfig
with_slack = record {
  slack = true;
  webhook = false;
  pagerduty = false;
  teams = false;
  opsgenie = false;
  email = false;
}

abbrev to : List String → Route
to names = record {
  match_rule = record { severity = []; environment = none; source = none };
  providers = names;
  mode = failover;
  dedup = none;
  rate_limit = none;
  group_by = none;
  group_wait = none;
}

abbrev signal : Signal (Unit {0})
signal = from_input (λ t. t) tt 7 0 raising

abbrev open_gate : ℕ → Route → ℕ × Result String (Unit {0})
open_gate n route = (n, ok tt)

abbrev checked : List (Route × Origin)
checked = (to ("slack" ∷ []), (none, 0)) ∷ []

unknown_name :
    check_routes (provider_names with_slack) ((to ("pager" ∷ []), (some "a.yaml", 0)) ∷ [])
    ≡ err (
        config
          "a.yaml: routes[0] references provider 'pager', which is not configured under providers (configured: console, slack)")
unfolding check_routes check_route check_fields check_providers provider_names format join decimal
    decimal_before
unknown_name = refl

no_wait :
    check_routes
      (provider_names with_slack)
      ((record (to ("slack" ∷ [])) { dedup = some (record { secs = 0 }) }, (none, 3)) ∷ [])
    ≡ err (config "routes[3]: dedup must be longer than 0s")
unfolding check_routes check_route provider_names format decimal decimal_before
no_wait = refl

passes : check_routes (provider_names with_slack) checked ≡ ok tt
unfolding check_routes check_route check_fields check_providers provider_names
passes = refl

plan_names :
    contains "slack" (providers (plan_with open_gate signal (routes_of checked) 0).1) ≡ true
unfolding plan_with providers matches gates_signals
plan_names = refl

plan_with-configured_example : contains "slack" (provider_names with_slack) ≡ true
plan_with-configured_example =
    plan_with-configured open_gate signal with_slack checked 0 "slack" passes plan_names
