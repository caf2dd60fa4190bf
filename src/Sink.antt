-- ===== src/Sink.antt =====
-- crates/core/src/sink.rs: `SqliteSink`. A table is the list of its rows, an id and a time are
-- numbers; the JSON library writes a signal's payload. `fault` says how each statement fails, if it
-- does: `none` is the one on `signals`, `some` of a provider the one on its row of `deliveries`.
pub mod Told
pub mod Rows
pub mod Sent
use ops_signal.Prelude.{
  ℕ, String, Bool, true, false, not, ◌&&◌, Option, none, some, List, [], ◌∷◌, ◌==◌, eqb, any,
  Result, ok, err, if◌then◌else◌,
}
use ops_signal.Signal.{Signal, SignalError, sink, show_severity}
use ops_signal.Delivery.{ProviderOutcome, DeliveryResult, show_status, pending_result}
use ops_signal.Client.{SinkCall, recorded, noted, completed}

-- A row of the table `signals`.
pub record SignalRow : Type 0 where
  pub id : ℕ
  pub source : String
  pub event_type : String
  pub severity : String
  pub title : String
  pub environment : Option String
  pub dedup_key : Option String
  pub delivery_status : String
  pub provider : Option String
  pub error : Option String
  pub payload_json : String
  pub timestamp : ℕ

-- A row of the table `deliveries`.
pub record DeliveryRow : Type 0 where
  pub signal_id : ℕ
  pub provider : String
  pub status : String
  pub error : Option String
  pub attempts : ℕ
  pub updated_at : ℕ

pub record Database : Type 0 where
  pub signals : List SignalRow
  pub deliveries : List DeliveryRow

-- What SQLite says if a row with the id is there.
abbrev pub id_taken : String
id_taken = "UNIQUE constraint failed: signals.id"

-- `ON CONFLICT(id) DO UPDATE SET delivery_status, provider, error`.
unfoldable pub upsert_signal : SignalRow → List SignalRow → List SignalRow
upsert_signal row [] = row ∷ []
upsert_signal row (r ∷ rows) =
    let rest = upsert_signal row rows in
    if eqb r.id row.id
    then record r {
      delivery_status = row.delivery_status;
      provider = row.provider;
      error = row.error;
    }
      ∷ rows
    else r ∷ rest

abbrev pub is_delivery : ℕ → String → DeliveryRow → Bool
is_delivery id provider r = eqb r.signal_id id && r.provider == provider

-- `ON CONFLICT(signal_id, provider) DO UPDATE`.
unfoldable pub upsert_delivery : DeliveryRow → List DeliveryRow → List DeliveryRow
upsert_delivery row [] = row ∷ []
upsert_delivery row (r ∷ rows) =
    let rest = upsert_delivery row rows in
    if is_delivery row.signal_id row.provider r then row ∷ rows else r ∷ rest

abbrev pub Stored : Type 0
Stored = Database × Result SignalError (Unit {0})

module _ {M : Type 0} (to_json : Signal M → Result String String) (now : ℕ)
    (fault : Option String → Option String) where
  abbrev pub signal_row : Signal M → DeliveryResult → String → SignalRow
  signal_row s result payload = record {
    id = s.id;
    source = s.source;
    event_type = s.event_type;
    severity = show_severity s.severity;
    title = s.title;
    environment = s.environment;
    dedup_key = s.dedup_key;
    delivery_status = show_status result.status;
    provider = result.provider;
    error = result.error;
    payload_json = payload;
    timestamp = s.timestamp;
  }

  -- The statement of `insert`, which updates a row that is there only if it is told to.
  unfoldable pub insert_row : Bool → SignalRow → Option String → Database → Stored
  insert_row update row (some e) db = (db, err (sink e))
  insert_row update row none db =
      if not update && any (λ r. eqb r.id row.id) db.signals
      then (db, err (sink id_taken))
      else (record db { signals = upsert_signal row db.signals }, ok tt)

  unfoldable pub insert_json :
      Bool → Signal M → DeliveryResult → Result String String → Database → Stored
  insert_json update s result (err e) db = (db, err (sink e))
  insert_json update s result (ok payload) db =
      insert_row update (signal_row s result payload) (fault none) db

  -- `SqliteSink::insert`.
  unfoldable pub insert : Bool → Signal M → DeliveryResult → Database → Stored
  insert update s result db = insert_json update s result (to_json s) db

  abbrev pub delivery_row : Signal M → ProviderOutcome → DeliveryRow
  delivery_row s o = record {
    signal_id = s.id;
    provider = o.provider;
    status = show_status o.status;
    error = o.error;
    attempts = o.attempts;
    updated_at = now;
  }

  -- `upsert_outcome`.
  unfoldable pub upsert_outcome : Signal M → ProviderOutcome → Option String → Database → Stored
  upsert_outcome s o (some e) db = (db, err (sink e))
  upsert_outcome s o none db =
      (record db { deliveries = upsert_delivery (delivery_row s o) db.deliveries }, ok tt)

  -- `?` on the result of a statement.
  abbrev pub then_next : Stored → (Database → Stored) → Stored
  then_next (db, err e) next = (db, err e)
  then_next (db, ok _) next = next db

  -- The loop of `complete`.
  unfoldable pub upsert_outcomes : Signal M → List ProviderOutcome → Database → Stored
  upsert_outcomes s [] db = (db, ok tt)
  upsert_outcomes s (o ∷ os) db =
      then_next (upsert_outcome s o (fault (some o.provider)) db) (upsert_outcomes s os)

  -- `SignalSink::record`, `complete` and `provider_outcome` of the sink.
  unfoldable pub record_signal : Signal M → Database → Stored
  record_signal s db = insert false s pending_result db

  unfoldable pub complete : Signal M → DeliveryResult → Database → Stored
  complete s result db = then_next (insert true s result db) (upsert_outcomes s result.deliveries)

  unfoldable pub provider_outcome : Signal M → ProviderOutcome → Database → Stored
  provider_outcome s o db = upsert_outcome s o (fault (some o.provider)) db

  -- The sink's answer to a call.
  unfoldable pub answer_call : SinkCall M → Database → Stored
  answer_call (recorded s) db = record_signal s db
  answer_call (noted s o) db = provider_outcome s o db
  answer_call (completed s result) db = complete s result db

-- The database after some calls, each at its time and with its faults.
module _ {M : Type 0} (to_json : Signal M → Result String String) where
  unfoldable pub replay :
      List (SinkCall M × ℕ × (Option String → Option String)) → Database → Database
  replay [] db = db
  replay ((call, now, fault) ∷ rest) db = replay rest (answer_call to_json now fault call db).0
