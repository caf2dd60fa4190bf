-- ===== src/Examples/Signals.antt =====
-- crates/core/src/signal.rs on concrete inputs.
use ops_signal.Prelude.{
  format, subst, String, some, ◌≡◌, refl, ◌⊎◌, ◌↔◌, is_blank, false, ok, or_default,
}
use ops_signal.Signal.{
  key_text, SignalInput, default_input, resolve, validate, fill_lifecycle_defaults, from_input,
  is_lifecycle,
}
use ops_signal.Signal.Validation.{
  HasFields, NamesAlert, JudgedByFields, validate_iff, fill_lifecycle_defaults-HasFields,
}
use ops_signal.Prelude.{◌↔◌, has_char}
use ops_signal.Signal.Keys.{SameIncident, dedup_key-from_input}

-- A `resolve` of the alert `k`.
abbrev closing : SignalInput (Unit {0})
closing = record (default_input {M = Unit {0}}) { action = resolve; dedup_key = some "k" }

abbrev raised : SignalInput (Unit {0})
raised = record (default_input {M = Unit {0}}) { source = "ci"; event_type = "e"; title = "t" }

closing_accepted : validate closing ≡ ok tt
unfolding validate is_blank default_input
closing_accepted = refl

validate_iff_example :
    (validate raised ≡ ok tt)
    ↔ (((key : String) × NamesAlert raised key) ⊎ (JudgedByFields raised × HasFields raised))
validate_iff_example = validate_iff raised

fill_lifecycle_defaults-HasFields_example :
    HasFields (fill_lifecycle_defaults closing (some "Load failed"))
    × ((fill_lifecycle_defaults closing (some "Load failed")).dedup_key ≡ closing.dedup_key)
    × ((fill_lifecycle_defaults closing (some "Load failed")).action ≡ closing.action)
unfolding is_lifecycle is_blank
fill_lifecycle_defaults-HasFields_example =
    fill_lifecycle_defaults-HasFields closing (some "Load failed") refl closing_accepted
      (λ title e. subst (λ o. is_blank (or_default "x" o) ≡ false) e refl)

abbrev told : SignalInput (Unit {0})
told = record raised { message = some "m" }

dedup_key-from_input_example :
    (((from_input (λ s. s) {M = Unit {0}} tt 1 10 raised).dedup_key
        ≡ (from_input (λ s. s) {M = Unit {0}} tt 2 20 told).dedup_key)
      ↔ SameIncident raised told)
    × ((c : SignalInput (Unit {0})) (key : String)
        → c.dedup_key ≡ some key
        → (from_input (λ s. s) {M = Unit {0}} tt 1 10 c).dedup_key ≡ some key)
unfolding default_input has_char
dedup_key-from_input_example =
    dedup_key-from_input (λ s. s) tt 1 2 10 20 raised told
      (record { unkeyed = refl; source = refl; event_type = refl; title = refl })
      (record { unkeyed = refl; source = refl; event_type = refl; title = refl }) (λ e. e)

-- The parts of the hashed text are not escaped, so two sources can share a key.
shared_key_text :
    key_text (record raised { source = "ci|nightly"; event_type = "e" })
    ≡ key_text (record raised { source = "ci"; event_type = "nightly|e" })
unfolding key_text format default_input
shared_key_text = refl
