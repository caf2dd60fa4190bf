-- ===== src/Examples/Stores.antt =====
-- The sink (crates/core/src/sink.rs) on concrete calls, and after a signal that a client sends.
use ops_signal.Prelude.{String, none, some, List, [], ◌∷◌, ◌++◌, ◌≡◌, refl, ok, err, is_blank, join}
use ops_signal.Signal.{Signal, sink, validate, default_input, from_input, effective_dedup_key}
use ops_signal.Delivery.{DeliveryResult, ProviderOutcome, delivered, failed, pending_result}
use ops_signal.Delivery.Summary.{summarize, deliver}
use ops_signal.Delivery.Chain.{run, deliver_chain, retry}
use ops_signal.Routing.Plan.{plan_with}
use ops_signal.Routing.{matches, gates_signals}
use ops_signal.Throttle.{admit}
use ops_signal.Client.{SinkCall, completed}
use ops_signal.Client.{prepare, prepare_trigger, plan_signal, hold, settle}
use ops_signal.Client.Sending.{SendReport, send, send_prepared, reported, carry_out, track}
use ops_signal.Sink.{
  Database, answer_call, replay, record_signal, insert, insert_json, insert_row, upsert_signal,
}
use ops_signal.Sink.Told.{status_of}
use ops_signal.Sink.Rows.{Says, answer_call-Says, json, no_fault}
use ops_signal.Sink.Sent.{send_stored, stamp, result_status}
use ops_signal.Examples.Clients.{setting, fresh, course, raising}

abbrev signal : Signal (Unit {0})
signal = from_input (λ t. t) tt 7 0 raising

abbrev one_text : Signal (Unit {0}) → String
one_text s = "{}"

abbrev empty : Database
empty = record { signals = []; deliveries = [] }

abbrev outcome : ProviderOutcome
outcome = record { provider = "slack"; status = failed; error = some "500"; attempts = 3 }

abbrev lost : DeliveryResult
lost = record pending_result {
  status = failed;
  error = some "500";
  attempts = 3;
  deliveries = outcome ∷ [];
}

-- A signal is not recorded twice.
recorded_twice :
    (record_signal
      (json one_text)
      0
      (no_fault one_text)
      signal
      (record_signal (json one_text) 0 (no_fault one_text) signal empty).0).1
    ≡ err (sink "UNIQUE constraint failed: signals.id")
unfolding record_signal insert insert_json insert_row upsert_signal from_input
recorded_twice = refl

answer_call-Says_example :
    Says one_text
      (completed signal lost)
      5
      empty
      (answer_call (json one_text) 5 (no_fault one_text) (completed signal lost) empty).0
answer_call-Says_example = answer_call-Says one_text (completed signal lost) 5 empty

abbrev first_report : SendReport
first_report = record {
  signal_id = 1;
  dedup_key = some "k";
  result = record {
    status = delivered;
    provider = some "pagerduty";
    error = none;
    attempts = 1;
    deliveries =
        record { provider = "pagerduty"; status = delivered; error = none; attempts = 1 } ∷ [];
    suppressed = [];
    grouped = [];
  };
}

first_sent : (send setting 1 0 course raising fresh).1 ≡ ok first_report
unfolding send validate default_input is_blank send_prepared prepare prepare_trigger plan_signal
    plan_with matches gates_signals admit reported carry_out summarize track run deliver
    deliver_chain retry hold settle from_input effective_dedup_key join
first_sent = refl

send_stored_example :
    (calls : List (SinkCall (Unit {0}))) × ((send setting 1 0 course raising fresh).0.sink
      ≡ fresh.sink ++ calls)
    × ((db : Database)
        → status_of first_report.signal_id
            (replay (json one_text) (stamp one_text 0 calls) db).signals
          ≡ some (result_status one_text first_report.result))
send_stored_example = send_stored one_text setting 0 course 1 raising fresh first_report first_sent
