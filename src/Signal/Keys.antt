-- ===== src/Signal/Keys.antt =====
-- What the dedup key of a signal depends on (crates/core/src/signal.rs).
use ops_signal.Prelude.{
  ℕ, String, false, none, some, ◌≡◌, ◌↔◌, refl, sym, ap, ◌∙◌, or_default, append, format, has_char,
  split_once, joined_at, split_once-joined_at, some-injective, arith,
}
use ops_signal.Signal.{SignalInput, key_text, compute_dedup_key, effective_dedup_key, from_input}

-- Two inputs name the same incident.
pub record SameIncident {M : Type 0} (a b : SignalInput M) : Type 0 where
  pub source : a.source ≡ b.source
  pub event_type : a.event_type ≡ b.event_type
  pub title : a.title ≡ b.title
  pub environment : or_default "" a.environment ≡ or_default "" b.environment

-- The input has no key of its own, and no `|` in source, event type and title.
pub record IsPlain {M : Type 0} (a : SignalInput M) : Type 0 where
  pub unkeyed : a.dedup_key ≡ none
  pub source : has_char 124 a.source ≡ false
  pub event_type : has_char 124 a.event_type ≡ false
  pub title : has_char 124 a.title ≡ false

append-empty : (s : String) → append s "" ≡ s
append-empty String.[] = refl
append-empty (String.◌∷◌ c s) = ap (String.◌∷◌ c) (append-empty s)

key_text-joined_at :
    {M : Type 0} (a : SignalInput M)
    → key_text a
      ≡ joined_at "|" a.source
          (joined_at "|" a.event_type (joined_at "|" a.title (or_default "" a.environment)))
unfolding key_text format
key_text-joined_at a =
    ap (λ e. joined_at "|" a.source (joined_at "|" a.event_type (joined_at "|" a.title e)))
      (append-empty (or_default "" a.environment))

joined_at-injective :
    (a b c d : String)
    → has_char 124 a ≡ false
    → has_char 124 c ≡ false
    → joined_at "|" a b ≡ joined_at "|" c d
    → (a ≡ c) × (b ≡ d)
joined_at-injective a b c d h k e =
    let p = some-injective _ _ (
      sym (split_once-joined_at "|" a b h)
      ∙ ap (split_once 124) e
      ∙ split_once-joined_at "|" c d k) in
    (ap (λ x. x.0) p, ap (λ x. x.1) p)

key_text-injective :
    {M : Type 0} (a b : SignalInput M)
    → IsPlain a
    → IsPlain b
    → key_text a ≡ key_text b
    → SameIncident a b
key_text-injective a b p q e =
    let (x, y) =
      joined_at-injective a.source _ b.source _ p.source q.source
        (sym (key_text-joined_at a) ∙ e ∙ key_text-joined_at b) in
    let (u, v) = joined_at-injective a.event_type _ b.event_type _ p.event_type q.event_type y in
    let (s, t) = joined_at-injective a.title _ b.title _ p.title q.title v in
    record { source = x; event_type = u; title = s; environment = t }

key_text-SameIncident :
    {M : Type 0} (a b : SignalInput M) → SameIncident a b → key_text a ≡ key_text b
unfolding key_text
key_text-SameIncident a b same = ground (arith, same)

module _ (sha256 : String → String) {M : Type 0} where
  key-from_input :
      (empty : M) (id now : ℕ) (a : SignalInput M)
      → a.dedup_key ≡ none
      → (from_input sha256 empty id now a).dedup_key ≡ some (sha256 (key_text a))
  unfolding from_input effective_dedup_key compute_dedup_key
  key-from_input empty id now a h = rw h refl

  own_key-from_input :
      (empty : M) (id now : ℕ) (a : SignalInput M) (key : String)
      → a.dedup_key ≡ some key
      → (from_input sha256 empty id now a).dedup_key ≡ some key
  unfolding from_input effective_dedup_key
  own_key-from_input empty id now a key h = rw h refl

  -- Two inputs that have no key of their own, and no `|` in source, event type and title, are
  -- stamped with the same key just when they have the same source, event type, title and
  -- environment (a missing one counts as empty), whatever else they hold, whatever their ids and
  -- times, if SHA-256 tells their two texts apart. An input's own key is kept as it is.
  pub dedup_key-from_input :
      (empty : M) (id id' now now' : ℕ) (a b : SignalInput M)
      → IsPlain a
      → IsPlain b
      → (sha256 (key_text a) ≡ sha256 (key_text b) → key_text a ≡ key_text b)
      → (((from_input sha256 empty id now a).dedup_key
            ≡ (from_input sha256 empty id' now' b).dedup_key)
          ↔ SameIncident a b)
        × ((c : SignalInput M) (key : String)
            → c.dedup_key ≡ some key
            → (from_input sha256 empty id now c).dedup_key ≡ some key)
  dedup_key-from_input empty id id' now now' a b p q apart =
      let x = key-from_input empty id now a p.unkeyed in
      let y = key-from_input empty id' now' b q.unkeyed in
      (
        (
          λ e. key_text-injective a b p q (apart (some-injective _ _ (sym x ∙ e ∙ y))),
          λ same. x ∙ ap (λ t. some (sha256 t)) (key_text-SameIncident a b same) ∙ sym y,
        ),
        own_key-from_input empty id now,
      )
