-- ===== src/Lifecycle.antt =====
-- crates/core/src/lifecycle.rs: the alert book, and from crates/core/src/lib.rs where an
-- `acknowledge` or `resolve` goes. The table `alerts` is the list of its rows in `rowid` order; an
-- upsert keeps the row's place. The states are the texts of the column `state`. A statement may
-- meet a storage error, which is logged and changes nothing: `fault` says for which outcome, and
-- for a read whether it does.
pub mod Book
pub mod Holders
pub mod Plans
use ops_signal.Prelude.{
  ℕ, String, Bool, true, false, not, ◌&&◌, Option, none, some, List, [], ◌∷◌, ◌==◌, map, null, keep,
  is_some, or_default, format, find, if◌then◌else◌,
}
use ops_signal.Signal.{Signal, Action, trigger, acknowledge, resolve, show_action}
use ops_signal.Routing.{Route, providers_any_severity}
use ops_signal.Routing.Plan.{DeliveryPlan}
use ops_signal.Delivery.{
  DeliveryStatus, delivered, ProviderOutcome, DeliveryResult, Provider, Registry,
}

pub data AlertState : Type 0 where
  opened acknowledged resolved : AlertState

-- A row of the table `alerts`.
pub record AlertRow : Type 0 where
  pub dedup_key : String
  pub provider : String
  pub state : AlertState
  pub alert_ref : Option String
  pub title : String
  pub signal_id : ℕ
  pub updated_at : ℕ

-- `OpenAlert`.
pub record OpenAlert : Type 0 where
  pub provider : String
  pub alert_ref : Option String
  pub title : String

abbrev pub is_resolved : AlertState → Bool
is_resolved opened = false
is_resolved acknowledged = false
is_resolved resolved = true

abbrev pub is_row : String → String → AlertRow → Bool
is_row key provider r = r.dedup_key == key && r.provider == provider

-- `AlertBook::open_alerts`: `SELECT … WHERE dedup_key = ?1 AND state != 'resolved'`.
unfoldable pub select_open : String → List AlertRow → List OpenAlert
select_open key [] = []
select_open key (r ∷ rows) =
    let rest = select_open key rows in
    if r.dedup_key == key && not (is_resolved r.state)
    then record { provider = r.provider; alert_ref = r.alert_ref; title = r.title } ∷ rest
    else rest

unfoldable pub open_alerts : Bool → String → List AlertRow → List OpenAlert
unfolding select_open
open_alerts fault key rows = if fault then [] else select_open key rows

-- `state_after`.
unfoldable pub state_after : Action → AlertState
state_after trigger = opened
state_after acknowledge = acknowledged
state_after resolve = resolved

-- `INSERT … ON CONFLICT(dedup_key, provider) DO UPDATE`.
unfoldable pub upsert_alert : AlertRow → List AlertRow → List AlertRow
upsert_alert row [] = row ∷ []
upsert_alert row (r ∷ rows) =
    let rest = upsert_alert row rows in
    if is_row row.dedup_key row.provider r then row ∷ rows else r ∷ rest

-- `UPDATE alerts SET state = ?3, updated_at = ?4 WHERE dedup_key = ?1 AND provider = ?2`.
unfoldable pub move_alert : String → String → AlertState → ℕ → List AlertRow → List AlertRow
move_alert key provider state now [] = []
move_alert key provider state now (r ∷ rows) =
    let rest = move_alert key provider state now rows in
    (if is_row key provider r then record r { state = state; updated_at = now } else r) ∷ rest

abbrev pub is_delivered : DeliveryStatus → Bool
is_delivered delivered = true
is_delivered _ = false

-- `HashMap::get` on the references.
abbrev pub ref_of : String → List (String × String) → Option String
ref_of name refs = elim (find (λ r. r.0 == name) refs) [ none ↦ none | some r ↦ some r.1 ]

module _ {M : Type 0} (fault : ProviderOutcome → Bool) (now : ℕ) (signal : Signal M)
    (refs : List (String × String)) where
  abbrev pub raised : String → ProviderOutcome → AlertRow
  raised key o = record {
    dedup_key = key;
    provider = o.provider;
    state = opened;
    alert_ref = ref_of o.provider refs;
    title = signal.title;
    signal_id = signal.id;
    updated_at = now;
  }

  -- The `match signal.action`.
  unfoldable pub write_action : Action → String → ProviderOutcome → List AlertRow → List AlertRow
  unfolding upsert_alert move_alert state_after
  write_action trigger key o rows = upsert_alert (raised key o) rows
  write_action acknowledge key o rows = move_alert key o.provider (state_after acknowledge) now rows
  write_action resolve key o rows = move_alert key o.provider (state_after resolve) now rows

  unfoldable pub write_outcomes : String → List ProviderOutcome → List AlertRow → List AlertRow
  unfolding write_action
  write_outcomes key [] rows = rows
  write_outcomes key (o ∷ os) rows = write_outcomes key os (
      if is_delivered o.status && not (fault o)
      then write_action signal.action key o rows
      else rows)

  -- `AlertBook::record`.
  unfoldable pub record_alerts : DeliveryResult → List AlertRow → List AlertRow
  unfolding write_outcomes
  record_alerts result rows = elim signal.dedup_key [
    | none ↦ rows
    | some key ↦ write_outcomes key result.deliveries rows
  ]

abbrev pub singles : List String → List (List String)
singles = map (λ name. name ∷ [])

abbrev pub holder_names : List OpenAlert → List String
holder_names = map (λ a. a.provider)

-- `Provider::resolves_by_key` of a provider that is registered.
abbrev pub by_key : Registry → String → Bool
by_key registry name = elim (registry name) [ none ↦ false | some p ↦ p.resolves_by_key ]

unfoldable pub lifecycle_targets :
    {M : Type 0} → Registry → List Route → Signal M → List OpenAlert → List (List String)
unfolding providers_any_severity
lifecycle_targets registry routes signal alerts =
    let held = singles (holder_names (keep (λ a. is_some (registry a.provider)) alerts)) in
    if null held
    then singles (keep (by_key registry) (providers_any_severity routes signal))
    else held

-- `lifecycle_plan` of crates/core/src/lib.rs.
unfoldable pub lifecycle_plan :
    {M : Type 0} → Registry → List Route → Signal M → List OpenAlert → DeliveryPlan
unfolding lifecycle_targets
lifecycle_plan registry routes signal alerts =
    let planned = lifecycle_targets registry routes signal alerts in
    record {
      targets = planned;
      suppressed =
          if null planned
          then format (
              "no open alert with dedup key "
              ∷ or_default "" signal.dedup_key
              ∷ " to "
              ∷ show_action signal.action
              ∷ ", and no route to a provider that resolves by key"
              ∷ [])
            ∷ []
          else [];
      grouped = [];
    }
