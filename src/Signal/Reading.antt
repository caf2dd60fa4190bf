-- ===== src/Signal/Reading.antt =====
-- `FromStr` of `Severity` and `Action` of crates/core/src/signal.rs. `lower` is
-- `str::to_lowercase`, and `quoted` writes a text as `{:?}` does.
use ops_signal.Prelude.{
  String, [], ◌∷◌, ◌==◌, ◌≡◌, ◌||◌, ap, format, Result, ok, err, if◌then◌else◌,
}
use ops_signal.Signal.{
  Severity, info, success, warning, error, critical, show_severity, Action, trigger, acknowledge,
  resolve, show_action,
}

module _ (lower quoted : String → String) where
  abbrev pub severity_named : String → Result String Severity
  severity_named name =
      if name == "info"
      then ok info
      else if name == "success"
      then ok success
      else if name == "warning"
      then ok warning
      else if name == "error"
      then ok error
      else if name == "critical"
      then ok critical
      else err (
          format (
            "unknown severity "
            ∷ quoted name
            ∷ "; expected one of: info, success, warning, error, critical"
            ∷ []))

  -- `Severity::from_str`.
  unfoldable pub read_severity : String → Result String Severity
  read_severity s = severity_named (lower s)

  abbrev pub action_named : String → Result String Action
  action_named name =
      if name == "trigger"
      then ok trigger
      else if name == "acknowledge" || name == "ack"
      then ok acknowledge
      else if name == "resolve"
      then ok resolve
      else err (
          format (
            "unknown action "
            ∷ quoted name
            ∷ "; expected one of: trigger, acknowledge, resolve"
            ∷ []))

  -- `Action::from_str`.
  unfoldable pub read_action : String → Result String Action
  read_action s = action_named (lower s)

  -- What `Display` writes is read as the same, whatever case it is written in.
  pub read_severity-show_severity :
      (s : Severity) (text : String) → lower text ≡ show_severity s → read_severity text ≡ ok s
  unfolding read_severity show_severity
  read_severity-show_severity info text h = ap severity_named h
  read_severity-show_severity success text h = ap severity_named h
  read_severity-show_severity warning text h = ap severity_named h
  read_severity-show_severity error text h = ap severity_named h
  read_severity-show_severity critical text h = ap severity_named h

  pub read_action-show_action :
      (a : Action) (text : String) → lower text ≡ show_action a → read_action text ≡ ok a
  unfolding read_action show_action
  read_action-show_action trigger text h = ap action_named h
  read_action-show_action acknowledge text h = ap action_named h
  read_action-show_action resolve text h = ap action_named h
