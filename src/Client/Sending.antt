-- ===== src/Client/Sending.antt =====
-- `send` and `notify_async` of crates/core/src/lib.rs. A delivery that ran is given by its
-- schedule, and by the message of the timeout if one cut it off.
use ops_signal.Prelude.{
  ℕ, suc, ◌-◌, String, false, Option, none, some, List, [], ◌∷◌, ◌++◌, null, map, Result, ok, err,
  if◌then◌else◌,
}
use ops_signal.Signal.{Signal, SignalInput, SignalError, validate}
use ops_signal.Delivery.{DeliveryResult}
use ops_signal.Delivery.Tracker.{Tracker}
use ops_signal.Delivery.Chain.{run}
use ops_signal.Delivery.Summary.{summarize}
use ops_signal.Lifecycle.{AlertRow, ref_of, record_alerts}
use ops_signal.Groups.{take_all}
use ops_signal.Client.{
  Client, Setting, Prepared, recorded, noted, completed, prepare, settle, hold, settle_unsent, tell,
}

-- `SendReport`.
pub record SendReport : Type 0 where
  pub signal_id : ℕ
  pub dedup_key : Option String
  pub result : DeliveryResult

-- What a started delivery meets: the order its targets took turns in, and the timeout.
pub record Course : Type 0 where
  pub schedule : List ℕ
  pub cut : Option String

abbrev pub report_of : {M : Type 0} → Signal M → DeliveryResult → SendReport
report_of signal result = record {
  signal_id = signal.id;
  dedup_key = signal.dedup_key;
  result = result;
}

-- `send` returns the sink's error if `complete` fails.
unfoldable pub reported :
    {M : Type 0}
    → Option SignalError
    → Signal M
    → Client M × DeliveryResult
    → Client M × Result SignalError SendReport
reported (some e) signal (c, result) = (c, err e)
reported none signal (c, result) = (c, ok (report_of signal result))

module _ {M : Type 0} (env : Setting M) where
  -- The tracker when the delivery of a prepared signal is over.
  unfoldable pub track : Prepared M → Course → Tracker
  track p course =
      run env.registry (λ name. ref_of name p.prior_refs) course.schedule p.plan.targets

  unfoldable pub book :
      ℕ → Prepared M → DeliveryResult → Tracker → Option (List AlertRow) → Option (List AlertRow)
  book now p result t none = none
  book now p result t (some rows) =
      some (record_alerts env.write_fault now p.signal t.refs result rows)

  -- A delivery and what follows it: `settle`, the alert book, and the sink's `complete`. What the
  -- tracker wrote to the sink comes first.
  unfoldable pub carry_out : ℕ → Prepared M → Course → Client M → Client M × DeliveryResult
  carry_out now p course c =
      let t = track p course in
      let result = summarize p.plan t.outcomes course.cut in
      (
        record c {
          throttle = settle env p.admission result c.throttle;
          alerts = book now p result t c.alerts;
          sink = (c.sink ++ map (noted p.signal) t.written) ++ completed p.signal result ∷ [];
        },
        result,
      )

  abbrev unsent : Signal M → Client M × DeliveryResult → Client M × Result SignalError SendReport
  unsent signal (c, result) = (c, ok (report_of signal result))

  -- What `send` does with a prepared signal.
  unfoldable pub send_prepared :
      ℕ → Course → Client M × Prepared M → Client M × Result SignalError SendReport
  send_prepared now course (c, p) =
      let c = tell env (recorded p.signal) c in
      if null p.plan.targets
      then unsent p.signal (settle_unsent env p c)
      else (let (c', admission) = hold env p.signal false p.plan.grouped c p.admission in
          reported env.complete_fault p.signal
            (carry_out now (record p { admission = admission }) course c'))

  -- `SignalClient::send`.
  unfoldable pub send :
      ℕ → ℕ → Course → SignalInput M → Client M → Client M × Result SignalError SendReport
  send id now course input c = elim (validate input) [
    | err e ↦ (c, err e)
    | ok _ ↦ send_prepared now course (prepare env id now input c)
  ]

  -- What `notify_async` does on the caller's thread with a prepared signal: the task to run, if
  -- there is one, is counted in flight.
  unfoldable pub start_prepared : Client M × Prepared M → Client M × Option (Prepared M)
  start_prepared (c, p) =
      let c = tell env (recorded p.signal) c in
      if null p.plan.targets
      then ((settle_unsent env p c).0, none)
      else (let (c', admission) = hold env p.signal false p.plan.grouped c p.admission in
          (
            record c' { groups = record c'.groups { in_flight = suc c'.groups.in_flight } },
            some (record p { admission = admission }),
          ))

  -- `SignalClient::notify_async`, until it returns.
  unfoldable pub notify_async : ℕ → ℕ → SignalInput M → Client M → Client M × Option (Prepared M)
  notify_async id now input c = elim (validate input) [
    | err e ↦ (c, none)
    | ok _ ↦ start_prepared (prepare env id now input c)
  ]

  -- The task that `notify_async` starts, with the drop of its guard at the end.
  unfoldable pub finish_async : ℕ → List ℕ → Prepared M → Client M → Client M
  finish_async now schedule p c =
      let (c', _) = carry_out now p (record { schedule = schedule; cut = none }) c in
      record c' { groups = record c'.groups { in_flight = c'.groups.in_flight - 1 } }

-- The first half of `flush` and `flush_groups`: every open group is sent.
unfoldable pub spawn_groups : {M : Type 0} → Client M → Client M
spawn_groups c =
    let (groups, closed) = take_all c.groups in
    record c { groups = groups; spawned = c.spawned ++ closed }
