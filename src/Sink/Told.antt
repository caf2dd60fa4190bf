-- ===== src/Sink/Told.antt =====
-- The rows of the sink (crates/core/src/sink.rs) by their keys, and what a call says of them.
use ops_signal.Prelude.{
  ℕ, String, true, ◌&&◌, Option, none, some, List, [], ◌∷◌, ◌==◌, ◌≡◌, refl, eqb, any, is_some,
  or_else, if◌then◌else◌, arith, Bool-cases, inl, inr, and-eq-true, eq_iff, eq_refl,
}
use ops_signal.Signal.{Signal, show_severity}
use ops_signal.Delivery.{ProviderOutcome, DeliveryResult, show_status}
use ops_signal.Client.{SinkCall, recorded, noted, completed}
use ops_signal.Sink.{SignalRow, DeliveryRow, upsert_signal, upsert_delivery, is_delivery}

-- The row of a signal, and the row of a provider of it.
unfoldable pub signal_of : ℕ → List SignalRow → Option SignalRow
signal_of id [] = none
signal_of id (r ∷ rows) = if eqb r.id id then some r else signal_of id rows

unfoldable pub delivery_of : ℕ → String → List DeliveryRow → Option DeliveryRow
delivery_of id p [] = none
delivery_of id p (r ∷ rows) = if is_delivery id p r then some r else delivery_of id p rows

-- What the row of a signal says of its end.
abbrev pub Status : Type 0
Status = String × Option String × Option String

abbrev pub end_of : Option SignalRow → Option Status
end_of none = none
end_of (some r) = some (r.delivery_status, r.provider, r.error)

unfoldable pub status_of : ℕ → List SignalRow → Option Status
status_of id [] = none
status_of id (r ∷ rows) =
    if eqb r.id id then some (r.delivery_status, r.provider, r.error) else status_of id rows

pub status_of-signal_of :
    (id : ℕ) (rows : List SignalRow) → status_of id rows ≡ end_of (signal_of id rows)
unfolding status_of signal_of
status_of-signal_of id [] = refl
status_of-signal_of id (r ∷ rows) = ground (arith, status_of-signal_of id rows)

-- The row that is made of a signal, by the columns of the table.
abbrev pub row_for :
    {M : Type 0} → Signal M → String → String → Option String → Option String → SignalRow
row_for s payload status provider error = record {
  id = s.id;
  source = s.source;
  event_type = s.event_type;
  severity = show_severity s.severity;
  title = s.title;
  environment = s.environment;
  dedup_key = s.dedup_key;
  delivery_status = status;
  provider = provider;
  error = error;
  payload_json = payload;
  timestamp = s.timestamp;
}

-- The result of a signal in its row: a row that is there changes in three columns.
abbrev pub answered :
    {M : Type 0} → Signal M → String → DeliveryResult → Option SignalRow → SignalRow
answered s payload r none = row_for s payload (show_status r.status) r.provider r.error
answered s payload r (some row) = record row {
  delivery_status = show_status r.status;
  provider = r.provider;
  error = r.error;
}

-- The row of a signal after a call, from the row before it and the call alone.
unfoldable pub told_signal :
    {M : Type 0} → (Signal M → String) → ℕ → Option SignalRow → SinkCall M → Option SignalRow
told_signal to_text id said (recorded s) =
    if eqb s.id id then or_else said (some (row_for s (to_text s) "pending" none none)) else said
told_signal to_text id said (noted s o) = said
told_signal to_text id said (completed s r) =
    if eqb s.id id then some (answered s (to_text s) r said) else said

-- The row of a provider after outcomes that were written at a time.
unfoldable pub told_outcomes :
    ℕ → ℕ → String → Option DeliveryRow → ℕ → List ProviderOutcome → Option DeliveryRow
told_outcomes now id p said owner [] = said
told_outcomes now id p said owner (o ∷ os) =
    told_outcomes now id p
      (if eqb owner id && o.provider == p
        then some (record {
          signal_id = owner;
          provider = o.provider;
          status = show_status o.status;
          error = o.error;
          attempts = o.attempts;
          updated_at = now;
        })
        else said)
      owner os

unfoldable pub told_delivery :
    {M : Type 0} → ℕ → ℕ → String → Option DeliveryRow → SinkCall M → Option DeliveryRow
told_delivery now id p said (recorded s) = said
told_delivery now id p said (noted s o) = told_outcomes now id p said s.id (o ∷ [])
told_delivery now id p said (completed s r) = told_outcomes now id p said s.id r.deliveries

-- `ON CONFLICT`, on the row that is there.
abbrev pub conflict : SignalRow → Option SignalRow → SignalRow
conflict row none = row
conflict row (some r) = record r {
  delivery_status = row.delivery_status;
  provider = row.provider;
  error = row.error;
}

-- A statement and what is read after it.
pub signal_of-upsert_signal :
    (id : ℕ) (row : SignalRow) (rows : List SignalRow)
    → signal_of id (upsert_signal row rows)
      ≡ (if eqb row.id id then some (conflict row (signal_of id rows)) else signal_of id rows)
unfolding signal_of upsert_signal
signal_of-upsert_signal id row [] = ground arith
signal_of-upsert_signal id row (r ∷ rows) = ground (arith, signal_of-upsert_signal id row rows)

pub any-signal_of :
    (id : ℕ) (rows : List SignalRow) → any (λ r. eqb r.id id) rows ≡ is_some (signal_of id rows)
unfolding signal_of
any-signal_of id [] = refl
any-signal_of id (r ∷ rows) = ground (arith, any-signal_of id rows)

pub is_delivery-same :
    (id : ℕ) (p : String) (row r : DeliveryRow)
    → is_delivery row.signal_id row.provider r ≡ true
    → is_delivery id p r ≡ is_delivery id p row
is_delivery-same id p row r h =
    let (x, y) = and-eq-true (eqb r.signal_id row.signal_id) (r.provider == row.provider) h in
    rw ((eq_iff r.provider row.provider).0 y) (ground (arith, x))

pub is_delivery-both :
    (id : ℕ) (p : String) (row r : DeliveryRow)
    → is_delivery id p r ≡ true
    → is_delivery id p row ≡ true
    → is_delivery row.signal_id row.provider r ≡ true
is_delivery-both id p row r h k =
    let (x, y) = and-eq-true (eqb r.signal_id id) (r.provider == p) h in
    let (u, v) = and-eq-true (eqb row.signal_id id) (row.provider == p) k in
    rw ((eq_iff r.provider p).0 y, (eq_iff row.provider p).0 v) (ground (arith, x, u, eq_refl p))

pub delivery_of-upsert_delivery :
    (id : ℕ) (p : String) (row : DeliveryRow) (rows : List DeliveryRow)
    → delivery_of id p (upsert_delivery row rows)
      ≡ (if is_delivery id p row then some row else delivery_of id p rows)
unfolding delivery_of upsert_delivery
delivery_of-upsert_delivery id p row [] = refl
delivery_of-upsert_delivery id p row (r ∷ rows) =
    elim (Bool-cases (is_delivery row.signal_id row.provider r)) [
      | inl e ↦ rw (e, is_delivery-same id p row r e) (ground arith)
      | inr e ↦ rw e (
          ground (arith, delivery_of-upsert_delivery id p row rows, is_delivery-both id p row r, e))
    ]
