-- ===== src/Examples/Clients.antt =====
-- Calls of a client (crates/core/src/lib.rs) on a concrete setting.
use ops_signal.Prelude.{
  true, false, some, none, [], ◌∷◌, ◌≡◌, refl, ◌==◌, Option, ok, err, ◌⊎◌, if◌then◌else◌, map,
  is_blank, Result, null,
}
use ops_signal.Signal.{
  SignalInput, SignalError, Signal, resolve, default_input, validate, is_lifecycle, error, warning,
  effective_dedup_key, from_input,
}
use ops_signal.Routing.{Route, failover}
use ops_signal.Delivery.{Provider, Registry, delivered, skipped, DeliveryStatus, DeliveryResult}
use ops_signal.Groups.{no_groups}
use ops_signal.Client
use ops_signal.Client.{Client, Setting}
use ops_signal.Client.Sending.{Course, send, send_prepared, reported, carry_out, track}
use ops_signal.Client.{prepare, prepare_trigger, plan_signal, settle_unsent, hold, settle}
use ops_signal.Delivery.Summary.{summarize, deliver}
use ops_signal.Delivery.Chain.{run, deliver_chain, retry}
use ops_signal.Routing.Plan.{plan_with}
use ops_signal.Routing.{matches, gates_signals}
use ops_signal.Throttle.{admit}
use ops_signal.Client.Calls.{IsUntouched, send-IsUntouched, Tells, Answers, send_told}
use ops_signal.Client.Digests.{send_group}
use ops_signal.Client.Settled.{IsSentAs, Settles, send_group-Settles}
use ops_signal.Examples.Grouping.{member, pair, closed, json, values_text, key_of}

abbrev pager : Provider
pager = record { send_with_ref = λ prior k. ok (some "incident 7"); resolves_by_key = true }

abbrev registry : Registry
registry name = if name == "pagerduty" then some pager else none

abbrev limited : Route
limited = record {
  match_rule = record { severity = []; environment = none; source = none };
  providers = "pagerduty" ∷ [];
  mode = failover;
  dedup = some (record { secs = 600 });
  rate_limit = none;
  group_by = none;
  group_wait = none;
}

abbrev pub setting : Setting (Unit {0})
setting = record {
  registry = registry;
  routes = limited ∷ [];
  sha256 = λ s. s;
  key_of = key_of;
  json = json;
  json_text = values_text;
  empty = tt;
  throttle_fault = false;
  read_fault = false;
  write_fault = λ o. false;
  release_fault = λ r. false;
  complete_fault = none;
}

abbrev pub fresh : Client (Unit {0})
fresh = record {
  throttle = some [];
  alerts = some [];
  groups = no_groups;
  sink = [];
  spawned = [];
  timers = [];
}

abbrev pub course : Course
course = record { schedule = 0 ∷ 0 ∷ 0 ∷ 0 ∷ []; cut = none }

abbrev pub raising : SignalInput (Unit {0})
raising = record (default_input {M = Unit {0}}) {
  source = "ci";
  event_type = "failed";
  title = "load failed";
  severity = error;
  dedup_key = some "k";
}

abbrev closing : SignalInput (Unit {0})
closing = record (default_input {M = Unit {0}}) { action = resolve; dedup_key = some "k" }

abbrev status_of : Result SignalError Client.Sending.SendReport → Option DeliveryStatus
status_of (ok report) = some report.result.status
status_of (err e) = none

-- The alert is raised, raised again within the dedup window, and resolved.
abbrev once : Client (Unit {0})
once = (send setting 1 0 course raising fresh).0

send-IsUntouched_example : IsUntouched once (send setting 2 5 course closing once).0
unfolding default_input is_lifecycle
send-IsUntouched_example = send-IsUntouched setting 5 course 2 closing once refl

send_told_example :
    ((e : SignalError) × (validate raising ≡ err e)
      × (send setting 1 0 course raising fresh ≡ (fresh, err e)))
    ⊎ ((validate raising ≡ ok tt)
        × ((result : DeliveryResult) × Tells
              (prepare setting 1 0 raising fresh).1.signal
              result
              fresh
              (send setting 1 0 course raising fresh).0
            × Answers none
                (null (prepare setting 1 0 raising fresh).1.plan.targets)
                (prepare setting 1 0 raising fresh).1.signal
                result
                (send setting 1 0 course raising fresh).1))
send_told_example = send_told setting 0 course 1 raising fresh

statuses :
    map
      (λ r. status_of r)
      ((send setting 1 0 course raising fresh).1
        ∷ (send setting 2 60000 course raising once).1
        ∷ [])
    ≡ some delivered ∷ some skipped ∷ []
unfolding send validate default_input is_blank send_prepared prepare prepare_trigger plan_signal
    plan_with matches gates_signals admit reported carry_out summarize track run deliver
    deliver_chain retry settle_unsent hold settle from_input effective_dedup_key
statuses = refl

send_group-Settles_example :
    (signal : Signal (Unit {0})) × (c' : Client (Unit {0})) × (result : DeliveryResult)
    × (send_group setting 3 9 (0 ∷ 0 ∷ []) closed once ≡ some (c', result))
    × IsSentAs setting 3 9 closed signal (member "a" warning "1" ∷ pair)
    × Settles setting 9 signal closed once c' result
send_group-Settles_example =
    send_group-Settles setting 3 9 (0 ∷ 0 ∷ []) closed once (member "a" warning "1") pair refl
