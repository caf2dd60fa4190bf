-- ===== src/Signal/Validation.antt =====
-- What `validate` accepts, and what `fill_lifecycle_defaults` leaves (crates/core/src/signal.rs).
use ops_signal.Prelude.{
  String, true, false, Option, none, some, ◌≡◌, refl, ◌⊎◌, ◌↔◌, inl, inr, is_blank, ok, arith,
  Bool-cases, or_default, or_else, if◌then◌else◌,
}
use ops_signal.Signal.{
  SignalInput, is_lifecycle, show_action, validate, validate_fields, fill_lifecycle_defaults,
  Action, trigger, acknowledge, resolve,
}

-- The three fields that a signal needs are not blank.
pub record HasFields {M : Type 0} (input : SignalInput M) : Type 0 where
  pub source : is_blank input.source ≡ false
  pub event_type : is_blank input.event_type ≡ false
  pub title : is_blank input.title ≡ false

-- An `acknowledge` or `resolve` that names its alert by a key.
pub record NamesAlert {M : Type 0} (input : SignalInput M) (key : String) : Type 0 where
  pub lifecycle : is_lifecycle input.action ≡ true
  pub given : input.dedup_key ≡ some key
  pub readable : is_blank key ≡ false

-- The input is judged by its fields: it raises an alert, or leaves its key to be computed.
abbrev pub JudgedByFields : {M : Type 0} → SignalInput M → Type 0
JudgedByFields input = (is_lifecycle input.action ≡ false) ⊎ (input.dedup_key ≡ none)

validate_fields_iff :
    {M : Type 0} (input : SignalInput M) → (validate_fields input ≡ ok tt) ↔ HasFields input
unfolding validate_fields
validate_fields_iff input = (λ h. ground arith, λ h. ground arith)

-- `validate` accepts exactly the inputs that name an alert by a key that is not blank, and those
-- judged by their fields that have all three of them.
pub validate_iff :
    {M : Type 0} (input : SignalInput M)
    → (validate input ≡ ok tt)
      ↔ (((key : String) × NamesAlert input key) ⊎ (JudgedByFields input × HasFields input))
unfolding validate
validate_iff input = (λ h. ground arith, λ h. ground arith)

fallback-not_blank :
    (s d : String)
    → (is_blank s ≡ true → is_blank d ≡ false)
    → is_blank (if is_blank s then d else s) ≡ false
fallback-not_blank s d h = elim (Bool-cases (is_blank s)) [
  | inl blank ↦ rw blank (h blank)
  | inr full ↦ rw full full
]

show_action-not_blank : (a : Action) → is_blank (show_action a) ≡ false
unfolding show_action is_blank
show_action-not_blank trigger = refl
show_action-not_blank acknowledge = refl
show_action-not_blank resolve = refl

-- The title to fall back on: the alert's, else the key.
title_fallback :
    {M : Type 0} (input : SignalInput M) (known_title : Option String)
    → is_lifecycle input.action ≡ true
    → validate input ≡ ok tt
    → ((title : String) → known_title ≡ some title → is_blank title ≡ false)
    → is_blank input.title ≡ true
    → is_blank (or_default "" (or_else known_title input.dedup_key)) ≡ false
unfolding validate
title_fallback input none l v t b = ground arith
title_fallback input (some title) l v t b = t title refl

-- An accepted `acknowledge` or `resolve`, filled in from the alert's title (not blank, if there is
-- one), has the three fields that every provider needs, and keeps its key and its action.
pub fill_lifecycle_defaults-HasFields :
    {M : Type 0} (input : SignalInput M) (known_title : Option String)
    → is_lifecycle input.action ≡ true
    → validate input ≡ ok tt
    → ((title : String) → known_title ≡ some title → is_blank title ≡ false)
    → HasFields (fill_lifecycle_defaults input known_title)
      × ((fill_lifecycle_defaults input known_title).dedup_key ≡ input.dedup_key)
      × ((fill_lifecycle_defaults input known_title).action ≡ input.action)
unfolding fill_lifecycle_defaults
fill_lifecycle_defaults-HasFields input known_title l v t = (
  record {
    source = fallback-not_blank input.source "opssignal" (λ _. unfold is_blank in refl);
    event_type =
        fallback-not_blank input.event_type (show_action input.action)
          (λ _. show_action-not_blank input.action);
    title = fallback-not_blank input.title _ (title_fallback input known_title l v t);
  },
  refl,
  refl,
)
