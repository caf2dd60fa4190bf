-- ===== src/Delivery.antt =====
-- crates/core/src/delivery.rs, and the delivery half of crates/core/src/lib.rs: outcomes, the
-- provider interface, the tracker, the chains of a plan and their summary.
pub mod Tracker
pub mod Chain
pub mod Summary
pub mod Retry
pub mod Lookups
pub mod Weave
pub mod Schedules
pub mod Statuses
pub mod Reports
pub mod Outcomes
pub mod EndToEnd
use ops_signal.Prelude.{ℕ, String, Bool, Option, none, List, [], Result}

-- `DeliveryStatus`.
pub data DeliveryStatus : Type 0 where
  pending delivered partial failed skipped grouped : DeliveryStatus

-- `impl Display for DeliveryStatus`.
unfoldable pub show_status : DeliveryStatus → String
show_status pending = "pending"
show_status delivered = "delivered"
show_status partial = "partial"
show_status failed = "failed"
show_status skipped = "skipped"
show_status grouped = "grouped"

-- `ProviderOutcome`.
pub record ProviderOutcome : Type 0 where
  pub provider : String
  pub status : DeliveryStatus
  pub error : Option String
  pub attempts : ℕ

-- `DeliveryResult`.
pub record DeliveryResult : Type 0 where
  pub status : DeliveryStatus
  pub provider : Option String
  pub error : Option String
  pub attempts : ℕ
  pub deliveries : List ProviderOutcome
  pub suppressed : List String
  pub grouped : List String

-- `DeliveryResult::pending`.
unfoldable pub pending_result : DeliveryResult
pending_result = record {
  status = pending;
  provider = none;
  error = none;
  attempts = 0;
  deliveries = [];
  suppressed = [];
  grouped = [];
}

-- `trait Provider`, as one delivery of one signal meets it: what `send_with_ref` returns at each
-- attempt, given the reference to the alert (an error as its text), and `resolves_by_key`.
pub record Provider : Type 0 where
  pub send_with_ref : Option String → ℕ → Result String (Option String)
  pub resolves_by_key : Bool

-- `HashMap<String, Arc<dyn Provider>>`, which is only looked up.
abbrev pub Registry : Type 0
Registry = String → Option Provider
