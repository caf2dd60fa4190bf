-- ===== src/Sink/Rows.antt =====
-- What the rows of the sink (crates/core/src/sink.rs) are after some calls.
use ops_signal.Prelude.{
  ℕ, String, Bool, true, Option, none, some, List, [], ◌∷◌, ◌≡◌, refl, ap, ◌∙◌, eqb, any, is_some,
  Result, ok, if◌then◌else◌, arith, Bool-cases, Option-cases, inl, inr,
}
use ops_signal.Signal.{Signal}
use ops_signal.Delivery.{ProviderOutcome, DeliveryResult, show_status, pending_result}
use ops_signal.Client.{SinkCall, recorded, noted, completed}
use ops_signal.Sink.{
  SignalRow, Database, upsert_signal, upsert_delivery, insert_row, insert_json, insert,
  upsert_outcome, upsert_outcomes, record_signal, complete, provider_outcome, answer_call,
  signal_row, delivery_row,
}
use ops_signal.Sink.Told.{
  signal_of, delivery_of, end_of, status_of, status_of-signal_of, answered, told_signal,
  told_outcomes, told_delivery, conflict, signal_of-upsert_signal, any-signal_of,
  delivery_of-upsert_delivery,
}

-- Calls that meet no fault.
module _ {M : Type 0} (to_text : Signal M → String) where
  abbrev pub json : Signal M → Result String String
  json s = ok (to_text s)

  abbrev pub no_fault : Option String → Option String
  no_fault statement = none

  -- The row of each signal, and of each provider of it, after a call.
  pub record Says (call : SinkCall M) (now : ℕ) (db db' : Database) : Type 0 where
    pub signals :
        (id : ℕ) → signal_of id db'.signals ≡ told_signal to_text id (signal_of id db.signals) call
    pub deliveries :
        (id : ℕ) (p : String)
        → delivery_of id p db'.deliveries
          ≡ told_delivery now id p (delivery_of id p db.deliveries) call

  known :
      (own id : ℕ) (rows : List SignalRow)
      → eqb own id ≡ true
      → any (λ r. eqb r.id own) rows ≡ is_some (signal_of id rows)
  known own id rows h =
      any-signal_of own rows ∙ ap {B = Bool} (λ n. is_some (signal_of n rows)) (ground (arith, h))

  record_signal-Says :
      (s : Signal M) (now : ℕ) (db : Database)
      → Says (recorded s) now db (record_signal json now no_fault s db).0
  unfolding record_signal insert insert_json insert_row told_signal told_delivery pending_result
      show_status
  record_signal-Says s now db = elim (Bool-cases (any (λ r. eqb r.id s.id) db.signals)) [
    | inl e ↦ rw e (record {
      signals =
          λ id. ground (arith, known s.id id db.signals, e, Option-cases (signal_of id db.signals));
      deliveries = λ id p. refl;
    })
    | inr e ↦ rw e (record {
      signals = λ id.
          signal_of-upsert_signal id (signal_row json now no_fault s pending_result (to_text s))
            db.signals
          ∙ ground (arith, known s.id id db.signals, e, Option-cases (signal_of id db.signals));
      deliveries = λ id p. refl;
    })
  ]

  outcome_step :
      (s : Signal M) (now : ℕ) (o : ProviderOutcome) (db : Database) (id : ℕ) (p : String)
      → delivery_of id p (upsert_outcome json now no_fault s o none db).0.deliveries
        ≡ told_outcomes now id p (delivery_of id p db.deliveries) s.id (o ∷ [])
  unfolding upsert_outcome told_outcomes
  outcome_step s now o db id p =
      delivery_of-upsert_delivery id p (delivery_row json now no_fault s o) db.deliveries

  outcomes_step :
      (s : Signal M) (now : ℕ) (os : List ProviderOutcome) (db : Database)
      → ((upsert_outcomes json now no_fault s os db).0.signals ≡ db.signals)
        × ((id : ℕ) (p : String)
            → delivery_of id p (upsert_outcomes json now no_fault s os db).0.deliveries
              ≡ told_outcomes now id p (delivery_of id p db.deliveries) s.id os)
  unfolding upsert_outcomes upsert_outcome told_outcomes
  outcomes_step s now [] db = (refl, λ id p. refl)
  outcomes_step s now (o ∷ os) db =
      let db' : Database = record db {
        deliveries = upsert_delivery (delivery_row json now no_fault s o) db.deliveries;
      } in
      let (x, y) = outcomes_step s now os db' in
      (
        x,
        λ id p.
            y id p
            ∙ ap (λ said. told_outcomes now id p said s.id os) (outcome_step s now o db id p),
      )

  conflict-answered :
      (s : Signal M) (r : DeliveryResult) (now : ℕ) (said : Option SignalRow)
      → conflict (signal_row json now no_fault s r (to_text s)) said ≡ answered s (to_text s) r said
  conflict-answered s r now none = refl
  conflict-answered s r now (some row) = refl

  complete-Says :
      (s : Signal M) (r : DeliveryResult) (now : ℕ) (db : Database)
      → Says (completed s r) now db (complete json now no_fault s r db).0
  unfolding complete insert insert_json insert_row told_signal told_delivery
  complete-Says s r now db =
      let row = signal_row json now no_fault s r (to_text s) in
      let db' : Database = record db { signals = upsert_signal row db.signals } in
      let (x, y) = outcomes_step s now r.deliveries db' in
      record {
        signals = λ id.
            ap (signal_of id) x
            ∙ signal_of-upsert_signal id row db.signals
            ∙ ap (λ new. if eqb s.id id then some new else signal_of id db.signals)
                (conflict-answered s r now (signal_of id db.signals));
        deliveries = y;
      }

  -- What a call that meets no fault does to the rows of the tables. `record` makes the row of a
  -- signal that has none, with the signal's columns and as pending, and leaves the row of one that
  -- has. `complete` sets status, provider and error of the signal's row, and no other column, or
  -- makes it if there is none. The outcomes of `complete`, and the one of `provider_outcome`, each
  -- become the row of their provider for the signal, with the time. All other rows are as they
  -- were.
  pub answer_call-Says :
      (call : SinkCall M) (now : ℕ) (db : Database)
      → Says call now db (answer_call json now no_fault call db).0
  unfolding answer_call provider_outcome upsert_outcome told_signal told_delivery
  answer_call-Says (recorded s) now db = record_signal-Says s now db
  answer_call-Says (noted s o) now db = record {
    signals = λ id. refl;
    deliveries = outcome_step s now o db;
  }
  answer_call-Says (completed s r) now db = complete-Says s r now db

  -- The status after the last call for a signal.
  pub status_of-completed :
      (s : Signal M) (r : DeliveryResult) (now : ℕ) (db : Database)
      → status_of s.id (answer_call json now no_fault (completed s r) db).0.signals
        ≡ some (show_status r.status, r.provider, r.error)
  unfolding told_signal
  status_of-completed s r now db =
      status_of-signal_of s.id _
      ∙ ap end_of ((answer_call-Says (completed s r) now db).signals s.id)
      ∙ ground (arith, Option-cases (signal_of s.id db.signals))
