-- ===== src/Signal.antt =====
-- crates/core/src/signal.rs: the signal model, its validation and its dedup key.
-- `M` is the type of `serde_json::Value`, which the program only carries along. The clock
-- (`Utc::now`), the id (`Uuid::new_v4`, a 128-bit number) and SHA-256 in hexadecimal come in as
-- arguments. A timestamp is a number of milliseconds.
pub mod Validation
pub mod Keys
pub mod Reading
use ops_signal.Prelude.{
  ℕ, String, Bool, true, false, not, ◌&&◌, Option, none, some, [], ◌∷◌, is_blank, format,
  or_default, or_else, Result, ok, err, if◌then◌else◌,
}

-- `Severity`.
pub data Severity : Type 0 where
  info success warning error critical : Severity

pub Severity-discrete : Discrete Severity
Severity-discrete = hlevel

-- `impl Display for Severity`.
unfoldable pub show_severity : Severity → String
show_severity info = "info"
show_severity success = "success"
show_severity warning = "warning"
show_severity error = "error"
show_severity critical = "critical"

-- `Action`.
pub data Action : Type 0 where
  trigger acknowledge resolve : Action

-- `Action::is_lifecycle`.
unfoldable pub is_lifecycle : Action → Bool
is_lifecycle trigger = false
is_lifecycle acknowledge = true
is_lifecycle resolve = true

-- `Action::label`.
unfoldable pub label : Action → Option String
label trigger = none
label acknowledge = some "Acknowledged"
label resolve = some "Resolved"

-- `impl Display for Action`.
unfoldable pub show_action : Action → String
show_action trigger = "trigger"
show_action acknowledge = "acknowledge"
show_action resolve = "resolve"

-- `Signal`.
pub record Signal (M : Type 0) : Type 0 where
  pub id : ℕ
  pub source : String
  pub service : Option String
  pub component : Option String
  pub event_type : String
  pub severity : Severity
  pub title : String
  pub message : Option String
  pub environment : Option String
  pub team : Option String
  pub run_id : Option String
  pub correlation_id : Option String
  pub trace_id : Option String
  pub log_url : Option String
  pub metadata : M
  pub timestamp : ℕ
  pub dedup_key : Option String
  pub action : Action

-- `SignalInput`.
pub record SignalInput (M : Type 0) : Type 0 where
  pub source : String
  pub service : Option String
  pub component : Option String
  pub event_type : String
  pub severity : Severity
  pub title : String
  pub message : Option String
  pub environment : Option String
  pub team : Option String
  pub run_id : Option String
  pub correlation_id : Option String
  pub trace_id : Option String
  pub log_url : Option String
  pub metadata : Option M
  pub dedup_key : Option String
  pub action : Action

-- `SignalInput::default()`.
unfoldable pub default_input : {M : Type 0} → SignalInput M
default_input = record {
  source = "";
  service = none;
  component = none;
  event_type = "";
  severity = info;
  title = "";
  message = none;
  environment = none;
  team = none;
  run_id = none;
  correlation_id = none;
  trace_id = none;
  log_url = none;
  metadata = none;
  dedup_key = none;
  action = trigger;
}

-- `SignalError`.
pub data SignalError : Type 0 where
  validation config delivery sink timeout internal : String → SignalError

-- The text that `compute_dedup_key` hashes.
unfoldable pub key_text : {M : Type 0} → SignalInput M → String
key_text input = format (
    input.source
    ∷ "|"
    ∷ input.event_type
    ∷ "|"
    ∷ input.title
    ∷ "|"
    ∷ or_default "" input.environment
    ∷ [])

-- `compute_dedup_key`.
unfoldable pub compute_dedup_key : (String → String) → {M : Type 0} → SignalInput M → String
compute_dedup_key sha256 input = sha256 (key_text input)

-- `SignalInput::effective_dedup_key`.
unfoldable pub effective_dedup_key : (String → String) → {M : Type 0} → SignalInput M → String
effective_dedup_key sha256 input = or_default (compute_dedup_key sha256 input) input.dedup_key

-- `Signal::from_input`; `empty` is `default_metadata()`.
unfoldable pub from_input : (String → String) → {M : Type 0} → M → ℕ → ℕ → SignalInput M → Signal M
from_input sha256 empty id now input = record {
  id = id;
  source = input.source;
  service = input.service;
  component = input.component;
  event_type = input.event_type;
  severity = input.severity;
  title = input.title;
  message = input.message;
  environment = input.environment;
  team = input.team;
  run_id = input.run_id;
  correlation_id = input.correlation_id;
  trace_id = input.trace_id;
  log_url = input.log_url;
  metadata = or_default empty input.metadata;
  timestamp = now;
  dedup_key = some (effective_dedup_key sha256 input);
  action = input.action;
}

-- What a signal with no usable dedup key must have: the second half of `validate`.
unfoldable pub validate_fields : {M : Type 0} → SignalInput M → Result SignalError (Unit {0})
validate_fields input =
    if is_blank input.source
    then err (validation "source must not be empty")
    else if is_blank input.event_type
    then err (validation "event_type must not be empty")
    else if is_blank input.title
    then err (validation "title must not be empty")
    else ok tt

-- `validate`.
unfoldable pub validate : {M : Type 0} → SignalInput M → Result SignalError (Unit {0})
unfolding is_lifecycle validate_fields
validate input =
    if is_lifecycle input.action
    then elim input.dedup_key [
      | none ↦ validate_fields input
      | some key ↦
          if not (is_blank key)
          then ok tt
          else err (
              validation
                (format ("dedup_key must not be blank for " ∷ show_action input.action ∷ [])))
    ]
    else validate_fields input

-- `SignalInput::fill_lifecycle_defaults`: three fields, each left as it is unless blank.
unfoldable pub fill_lifecycle_defaults :
    {M : Type 0} → SignalInput M → Option String → SignalInput M
fill_lifecycle_defaults input known_title = record input {
  source = if is_blank input.source then "opssignal" else input.source;
  event_type = if is_blank input.event_type then show_action input.action else input.event_type;
  title =
      if is_blank input.title
      then or_default "" (or_else known_title input.dedup_key)
      else input.title;
}
