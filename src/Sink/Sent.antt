-- ===== src/Sink/Sent.antt =====
-- What the tables of the sink (crates/core/src/sink.rs) hold after `SignalClient::send` of
-- crates/core/src/lib.rs.
use ops_signal.Prelude.{
  ℕ, String, Option, some, List, [], ◌∷◌, ◌++◌, map, null, map-append, ◌≡◌, refl, ap, ◌∙◌, subst,
  arith, Result, ok, inl, inr,
}
use ops_signal.Signal.{Signal, SignalInput, SignalError}
use ops_signal.Delivery.{DeliveryResult, show_status}
use ops_signal.Client.{Client, Setting, SinkCall, recorded, completed, prepare}
use ops_signal.Client.Sending.{Course, SendReport, send}
use ops_signal.Client.Calls.{Answers, send_told}
use ops_signal.Sink.{Database, replay, answer_call}
use ops_signal.Sink.Told.{Status, status_of}
use ops_signal.Sink.Rows.{json, no_fault, status_of-completed}

module _ {M : Type 0} (to_text : Signal M → String) where
  -- Calls that meet no fault, at one time.
  abbrev pub Stamped : Type 0
  Stamped = SinkCall M × ℕ × (Option String → Option String)

  abbrev pub stamp : ℕ → List (SinkCall M) → List Stamped
  stamp now = map (λ call. (call, now, no_fault to_text))

  replay-append :
      (xs ys : List Stamped) (db : Database)
      → replay (json to_text) (xs ++ ys) db ≡ replay (json to_text) ys (replay (json to_text) xs db)
  unfolding replay
  replay-append [] ys db = refl
  replay-append ((call, now, fault) ∷ xs) ys db =
      replay-append xs ys (answer_call (json to_text) now fault call db).0

  abbrev pub result_status : DeliveryResult → Status
  result_status r = (show_status r.status, r.provider, r.error)

  -- A signal's last call says how it ended.
  status_after_last :
      (now : ℕ) (calls : List (SinkCall M)) (s : Signal M) (r : DeliveryResult) (db : Database)
      → status_of s.id (replay (json to_text) (stamp now (calls ++ completed s r ∷ [])) db).signals
        ≡ some (result_status r)
  unfolding replay
  status_after_last now calls s r db =
      let db' = replay (json to_text) (stamp now calls) db in
      ap (λ xs. status_of s.id (replay (json to_text) xs db).signals)
        (map-append _ calls (completed s r ∷ []))
      ∙ ap {A = Database} (λ d. status_of s.id d.signals)
          (replay-append (stamp now calls) (stamp now (completed s r ∷ [])) db)
      ∙ status_of-completed to_text s r now db'

  -- What `send` reports is what the table holds: if it returns a report, the calls it made on the
  -- sink, on any database and with no fault, leave the row of the signal with the status, provider
  -- and error of the report.
  pub send_stored :
      (env : Setting M) (now : ℕ) (course : Course) (id : ℕ) (input : SignalInput M) (c : Client M)
      (report : SendReport)
      → (send env id now course input c).1 ≡ ok report
      → (calls : List (SinkCall M)) × ((send env id now course input c).0.sink ≡ c.sink ++ calls)
        × ((db : Database)
            → status_of report.signal_id (replay (json to_text) (stamp now calls) db).signals
              ≡ some (result_status report.result))
  send_stored env now course id input c report h = elim (send_told env now course id input c) [
    | inl (e, v, x) ↦ ground (arith, ap {B = Result SignalError SendReport} (λ y. y.1) x, h)
    | inr (_, (r, t, a)) ↦
        let p = (prepare env id now input c).1 in
        let s = p.signal in
        let (x, y, _, _) = subst (Answers env.complete_fault (null p.plan.targets) s r) h a in
        (
          recorded s ∷ (t.notes ++ completed s r ∷ []),
          t.told,
          λ db. rw (x, y) (status_after_last now (recorded s ∷ t.notes) s r db),
        )
  ]
