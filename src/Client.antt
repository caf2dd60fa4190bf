-- ===== src/Client.antt =====
-- `SignalClient` of crates/core/src/lib.rs: what a call does to the shared state, from the
-- components. `Client/Digests.antt` has the sending of a closed group, and the modules below what
-- holds of a call. A call works on the state alone, as one step: what other threads do meanwhile
-- is another call's step. Tracing output is not part of the state.
pub mod Sending
pub mod Digests
pub mod Calls
pub mod Settled
pub mod Flushing
use ops_signal.Prelude.{
  ℕ, String, Bool, true, false, Option, none, some, List, [], ◌∷◌, ◌++◌, null, get_elem?, map,
  head?, Result, ok, err, if◌then◌else◌, find, ◌==◌,
}
use ops_signal.Window.{Window}
use ops_signal.Signal.{
  Signal, SignalInput, SignalError, is_lifecycle, effective_dedup_key, fill_lifecycle_defaults,
  from_input,
}
use ops_signal.Routing.{Route}
use ops_signal.Routing.Plan.{DeliveryPlan, plan_with}
use ops_signal.Throttle.{Row, Table, Gate, Admission, admit, release, split_off}
use ops_signal.Delivery.{ProviderOutcome, DeliveryResult, DeliveryStatus, failed, Registry}
use ops_signal.Delivery.Summary.{summarize}
use ops_signal.Lifecycle.{AlertRow, OpenAlert, open_alerts, lifecycle_plan, ref_of, record_alerts}
use ops_signal.Groups.{Values, Member, Closed, Added, joined, opens, full, Groups, add}
use ops_signal.Groups.Fields.{Json}

-- What a sink is told.
pub data SinkCall (M : Type 0) : Type 0 where
  recorded : Signal M → SinkCall M
  noted : Signal M → ProviderOutcome → SinkCall M
  completed : Signal M → DeliveryResult → SinkCall M

-- The fields of `SignalClient` that change. `throttle` and `alerts` are there if the client has a
-- store. `spawned` are the groups whose sending was started, `timers` the ones that wait.
pub record Client (M : Type 0) : Type 0 where
  pub throttle : Option Table
  pub alerts : Option (List AlertRow)
  pub groups : Groups M
  pub sink : List (SinkCall M)
  pub spawned : List (Closed M)
  pub timers : List (String × ℕ × Window)

-- `Pipeline`, and what the client is given from outside: the hash, the JSON library, and what the
-- storage answers in this call.
pub record Setting (M : Type 0) : Type 0 where
  pub registry : Registry
  pub routes : List Route
  pub sha256 : String → String
  pub key_of : Route → String
  pub json : Json M
  pub json_text : Values → String
  pub empty : M
  pub throttle_fault : Bool
  pub release_fault : Row → Bool
  pub read_fault : Bool
  pub write_fault : ProviderOutcome → Bool
  pub complete_fault : Option SignalError

-- `Prepared`.
pub record Prepared (M : Type 0) : Type 0 where
  pub signal : Signal M
  pub plan : DeliveryPlan
  pub admission : Admission
  pub prior_refs : List (String × String)

module _ {M : Type 0} (env : Setting M) where
  abbrev pub no_admission : Admission
  no_admission = record { rows = [] }

  abbrev planned : Gate × DeliveryPlan → Option Table × DeliveryPlan × Admission
  planned (g, plan) = (some g.table, plan, g.admission)

  -- `plan_signal`; without a throttle every route passes.
  unfoldable pub plan_signal : ℕ → Signal M → Option Table → Option Table × DeliveryPlan × Admission
  plan_signal now signal none = (
    none,
    (plan_with {S = Unit {0}} (λ s route. (s, ok tt)) signal env.routes tt).1,
    no_admission,
  )
  plan_signal now signal (some table) = planned (
      plan_with (admit env.key_of signal now env.throttle_fault) signal env.routes
        (record { table = table; admission = no_admission }))

  -- The alerts that are open for a key; a client without a store knows none.
  unfoldable pub known_alerts : String → Option (List AlertRow) → List OpenAlert
  known_alerts key none = []
  known_alerts key (some rows) = open_alerts env.read_fault key rows

  -- `filter_map(|a| Some((a.provider, a.alert_ref?)))`.
  unfoldable pub refs_of : List OpenAlert → List (String × String)
  refs_of [] = []
  refs_of (a ∷ as') =
      let rest = refs_of as' in
      elim a.alert_ref [ none ↦ rest | some ref ↦ (a.provider, ref) ∷ rest ]

  abbrev pub first_title : List OpenAlert → Option String
  first_title [] = none
  first_title (a ∷ _) = some a.title

  -- The trigger half of `prepare`, and the other.
  unfoldable pub prepare_trigger : ℕ → ℕ → SignalInput M → Client M → Client M × Prepared M
  prepare_trigger id now input c =
      let signal = from_input env.sha256 env.empty id now input in
      let (table, plan, admission) = plan_signal now signal c.throttle in
      (
        record c { throttle = table },
        record { signal = signal; plan = plan; admission = admission; prior_refs = [] },
      )

  unfoldable pub prepare_lifecycle : ℕ → ℕ → SignalInput M → Client M → Client M × Prepared M
  prepare_lifecycle id now input c =
      let alerts = known_alerts (effective_dedup_key env.sha256 input) c.alerts in
      let filled = fill_lifecycle_defaults input (first_title alerts) in
      let signal = from_input env.sha256 env.empty id now filled in
      (
        c,
        record {
          signal = signal;
          plan = lifecycle_plan env.registry env.routes signal alerts;
          admission = no_admission;
          prior_refs = refs_of alerts;
        },
      )

  -- `SignalClient::prepare`.
  unfoldable pub prepare : ℕ → ℕ → SignalInput M → Client M → Client M × Prepared M
  prepare id now input c =
      if is_lifecycle input.action
      then prepare_lifecycle id now input c
      else prepare_trigger id now input c

  -- `record`, and the other calls of the sink.
  abbrev pub tell : SinkCall M → Client M → Client M
  tell call c = record c { sink = c.sink ++ call ∷ [] }

  -- `settle`.
  unfoldable pub settle : Admission → DeliveryResult → Option Table → Option Table
  settle admission result none = none
  settle admission result (some table) = elim result.status [
    | failed ↦ some (release env.release_fault table admission.rows)
    | _ ↦ some table
  ]

  -- What `hold` does with what `add` says.
  unfoldable pub held : Added M → Client M → Client M
  held joined c = c
  held (full closed) c = record c { spawned = c.spawned ++ closed ∷ [] }
  held (opens key seq wait) c = record c { timers = c.timers ++ (key, seq, wait) ∷ [] }

  unfoldable pub hold_on : Signal M → Bool → Route → Client M → Admission → Client M × Admission
  hold_on signal owns_row route c admission =
      let (own, others) = split_off env.key_of admission route in
      let (groups, added) =
        add env.key_of env.json_text env.json route
          (record { signal = signal; admission = own; owns_row = owns_row }) c.groups in
      (held added (record c { groups = groups }), others)

  -- `SignalClient::hold`.
  unfoldable pub hold :
      Signal M → Bool → List (ℕ × String) → Client M → Admission → Client M × Admission
  hold signal owns_row [] c admission = (c, admission)
  hold signal owns_row ((i, _) ∷ rest) c admission = elim (get_elem? env.routes i) [
    | none ↦ hold signal owns_row rest c admission
    | some route ↦
        let (c', admission') = hold_on signal owns_row route c admission in
        hold signal owns_row rest c' admission'
  ]

  -- `SignalClient::settle_unsent`; a sink that fails is logged.
  unfoldable pub settle_unsent : Prepared M → Client M → Client M × DeliveryResult
  settle_unsent p c =
      let result = summarize p.plan [] none in
      let (c', _) =
        hold p.signal true p.plan.grouped (tell (completed p.signal result) c) p.admission in
      (c', result)
