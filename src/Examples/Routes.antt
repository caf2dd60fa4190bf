-- ===== src/Examples/Routes.antt =====
-- crates/core/src/routing.rs on concrete configs.
use ops_signal.Prelude.{
  String, some, none, List, [], ◌∷◌, ◌≡◌, refl, ◌⊎◌, ◌==◌, false, true, not, err, null, all,
  contains, Result, IsUnique, if◌then◌else◌, format, join,
}
use ops_signal.Window
use ops_signal.Signal.{Signal, error, default_input, from_input}
use ops_signal.Routing.{Route, failover, fanout, matches, gates_signals, push_new, describe}
use ops_signal.Routing.Plan.{providers, plan_with, plan}
use ops_signal.Routing.Targets.{AllFilled}
use ops_signal.Routing.Names.{plan_with-IsUnique}
use ops_signal.Routing.Decisions.{decide_routes, suppressed_lines, held_lines, sends_to}
use ops_signal.Routing.Unlost.{is_idle, decisions, plan_with-refines, plan_with_unlost}
use ops_signal.Routing.Gates.{logging, to_ask, plan_with-asks}
use ops_signal.Routing.Modes.{sent_names}
use ops_signal.Routing.OneMode.{layout, plan_with-one_mode}

-- A route that every signal matches.
abbrev route : List String → Route
route names = record {
  match_rule = record { severity = []; environment = none; source = none };
  providers = names;
  mode = failover;
  dedup = none;
  rate_limit = none;
  group_by = none;
  group_wait = none;
}

abbrev limited : Route
limited = record (route ("pagerduty" ∷ "slack" ∷ [])) {
  mode = fanout;
  dedup = some (record { secs = 600 });
}

abbrev held_route : Route
held_route = record (route ("slack" ∷ [])) { group_by = some ("run_id" ∷ []) }

abbrev alert : Signal (Unit {0})
alert =
    from_input (λ s. s) tt 1 1000
      (record (default_input {M = Unit {0}}) { source = "airflow"; severity = error })

-- The gate that turns every route down.
abbrev shut_gate : Unit {0} → Route → Unit {0} × Result String (Unit {0})
shut_gate s route = (s, err "duplicate")

mixed_modes :
    (plan
      (route ("teams" ∷ [])
        ∷ record (route ("slack" ∷ "pagerduty" ∷ [])) { mode = fanout }
        ∷ route ("email" ∷ [])
        ∷ [])
      alert).targets
    ≡ ("teams" ∷ "email" ∷ []) ∷ ("slack" ∷ []) ∷ ("pagerduty" ∷ []) ∷ []
unfolding plan matches gates_signals
mixed_modes = refl

-- `plan_with_skips_routes_the_gate_turns_down`
skips_turned_down :
    (plan_with shut_gate alert (limited ∷ route ("teams" ∷ "slack" ∷ []) ∷ []) tt).1 ≡ record {
      targets = ("teams" ∷ "slack" ∷ []) ∷ [];
      suppressed = "route [pagerduty, slack]: duplicate" ∷ [];
      grouped = [];
    }
unfolding plan_with matches gates_signals describe format join
skips_turned_down = refl

held_not_planned : plan (held_route ∷ []) alert ≡ record {
  targets = [];
  suppressed = [];
  grouped = (0, "route [slack]: held for a digest (group_wait 30s)") ∷ [];
}
unfolding plan matches gates_signals describe format join Window.show
held_not_planned = refl

unmatched_goes_to_console :
    (plan
      (record limited {
        match_rule = record { severity = []; environment = some "prod"; source = none };
      }
        ∷ [])
      alert).targets
    ≡ ("console" ∷ []) ∷ []
unfolding plan matches gates_signals from_input default_input
unmatched_goes_to_console = refl

abbrev config : List Route
config = limited ∷ route ("teams" ∷ "slack" ∷ []) ∷ []

plan_with-IsUnique_example :
    IsUnique (providers (plan_with shut_gate alert config tt).1)
    × AllFilled (plan_with shut_gate alert config tt).1.targets
plan_with-IsUnique_example = plan_with-IsUnique shut_gate alert config tt

plan_with-refines_example :
    let result = (plan_with shut_gate alert config tt).1 in
    ((plan_with shut_gate alert config tt).0 ≡ (decide_routes shut_gate alert config tt).0)
    × (result.suppressed ≡ suppressed_lines (decisions shut_gate alert config tt))
    × (result.grouped ≡ held_lines 0 (decisions shut_gate alert config tt))
    × ((n : String)
        → contains n (providers result) ≡ (
            if is_idle (decisions shut_gate alert config tt)
            then "console" == n
            else sends_to n (decisions shut_gate alert config tt)))
plan_with-refines_example = plan_with-refines shut_gate alert config tt

plan_with_unlost_example :
    let result = (plan_with shut_gate alert config tt).1 in
    (null result.targets ≡ true → (null result.suppressed ≡ false) ⊎ (null result.grouped ≡ false))
    × (all (λ r. not (matches r.match_rule alert)) config ≡ true
        → plan_with shut_gate alert config tt
          ≡ (tt, record { targets = ("console" ∷ []) ∷ []; suppressed = []; grouped = [] }))
plan_with_unlost_example = plan_with_unlost shut_gate alert config tt

plan_with-asks_example :
    ((plan_with (logging shut_gate alert) alert config ([], tt)).0.0
      ≡ to_ask shut_gate alert config)
    × ((plan_with (logging shut_gate alert) alert config ([], tt)).1
        ≡ (plan_with shut_gate alert config tt).1)
plan_with-asks_example = plan_with-asks shut_gate alert config tt

abbrev chained : List Route
chained = route ("teams" ∷ "slack" ∷ []) ∷ route ("slack" ∷ "email" ∷ []) ∷ []

plan_with-one_mode_example : (plan_with shut_gate alert chained tt).1.targets ≡ (
    if is_idle (decisions shut_gate alert chained tt)
    then ("console" ∷ []) ∷ []
    else layout failover (push_new [] (sent_names (decisions shut_gate alert chained tt))))
plan_with-one_mode_example = plan_with-one_mode shut_gate alert failover chained tt refl
