-- ===== src/Groups/Digests.antt =====
-- What the digest of a group says of its members (`digest` of crates/core/src/group.rs).
use ops_signal.Prelude.{
  ℕ, ◌≤◌, String, Bool, true, false, Option, none, some, List, [], ◌∷◌, ◌≡◌, ◌↔◌, refl, all, leb,
  map, All, eq_iff, eq_refl, Option-cases, inl, inr, arith, ◌⊎◌, if◌then◌else◌, format,
}
use ops_signal.Signal.{Severity, Signal, from_input, trigger, effective_dedup_key}
use ops_signal.Routing.{Route, is_text}
use ops_signal.Groups.{Member, Closed, Values, group_key}
use ops_signal.Groups.Fields.{Json}
use ops_signal.Groups.Listed.{Lists, digest_input-Lists}
use ops_signal.Groups.Digest.{rank, highest_from, highest, common, digest, digest_input}

-- The value is in the list.
abbrev pub IsAmong : Severity → List Severity → Type 0
IsAmong a [] = ⊥
IsAmong a (x ∷ xs) = (a ≡ x) ⊎ IsAmong a xs

module _ {M : Type 0} where
  abbrev pub severities : List (Member M) → List Severity
  severities = map (λ m. m.signal.severity)

  -- No member is above the severity, and one has it.
  abbrev pub IsHighest : Severity → List (Member M) → Type 0
  IsHighest s ms = All (λ m. rank m.signal.severity ≤ rank s) ms × IsAmong s (severities ms)

  -- What the fold from `s` over the members ends with.
  abbrev Bounds : Severity → List (Member M) → Severity → Type 0
  Bounds s ms t =
      (rank s ≤ rank t)
      × (All (λ m. rank m.signal.severity ≤ rank t) ms)
      × ((t ≡ s) ⊎ IsAmong t (severities ms))

  Bounds-step :
      (b : Bool) (s t : Severity) (m : Member M) (ms : List (Member M))
      → leb (rank s) (rank m.signal.severity) ≡ b
      → Bounds (if b then m.signal.severity else s) ms t
      → Bounds s (m ∷ ms) t
  Bounds-step true s t m ms e h =
      (ground (arith, h.0), (h.0, h.1), elim h.2 [ inl q ↦ inr (inl q) | inr q ↦ inr (inr q) ])
  Bounds-step false s t m ms e h =
      (h.0, (ground (arith, h.0), h.1), elim h.2 [ inl q ↦ inl q | inr q ↦ inr (inr q) ])

  Bounds-highest_from : (s : Severity) (ms : List (Member M)) → Bounds s ms (highest_from s ms)
  unfolding highest_from
  Bounds-highest_from s [] = (omega arith, tt, inl refl)
  Bounds-highest_from s (m ∷ ms) = Bounds-step _ s _ m ms refl (
      Bounds-highest_from (if leb (rank s) (rank m.signal.severity) then m.signal.severity else s)
        ms)

  highest-IsHighest : (m : Member M) (ms : List (Member M)) → IsHighest (highest (m ∷ ms)) (m ∷ ms)
  unfolding highest
  highest-IsHighest m ms = (let h = Bounds-highest_from m.signal.severity ms in ((h.0, h.1), h.2))

  -- Every member has the value.
  abbrev pub Share : (Signal M → Option String) → String → List (Member M) → Type 0
  Share get v = All (λ m. get m.signal ≡ some v)

  all-Share :
      (get : Signal M → Option String) (v : String) (ms : List (Member M))
      → all (λ x. is_text (get x.signal) v) ms ≡ true
      → Share get v ms
  all-Share get v [] h = tt
  all-Share get v (m ∷ ms) h = elim (Option-cases (get m.signal)) [
    | inl e ↦ ground arith
    | inr (t, e) ↦ ground (arith, all-Share get v ms, eq_iff t v)
  ]

  Share-all :
      (get : Signal M → Option String) (v : String) (ms : List (Member M))
      → Share get v ms
      → all (λ x. is_text (get x.signal) v) ms ≡ true
  Share-all get v [] h = refl
  Share-all get v (m ∷ ms) h = rw (h.0, eq_refl v) (Share-all get v ms h.1)

  common_up :
      (get : Signal M → Option String) (v : String) (m : Member M) (ms : List (Member M))
      → common (m ∷ ms) get ≡ some v
      → Share get v (m ∷ ms)
  unfolding common
  common_up get v m ms h = elim (Option-cases (get m.signal)) [
    | inl e ↦ ground arith
    | inr (t, e) ↦ ground (arith, all-Share get t (m ∷ ms))
  ]

  common_down :
      (get : Signal M → Option String) (v : String) (m : Member M) (ms : List (Member M))
      → Share get v (m ∷ ms)
      → common (m ∷ ms) get ≡ some v
  unfolding common
  common_down get v m ms h = rw (h.0, common) (rw (Share-all get v (m ∷ ms) h) refl)

  -- A field of the digest is the value that the members share, and is not set if they share none.
  abbrev pub IsShared : Option String → (Signal M → Option String) → List (Member M) → Type 0
  IsShared field get ms = (v : String) → (field ≡ some v) ↔ Share get v ms

  common-IsShared :
      (get : Signal M → Option String) (m : Member M) (ms : List (Member M))
      → IsShared (common (m ∷ ms) get) get (m ∷ ms)
  common-IsShared get m ms = λ v. (common_up get v m ms, common_down get v m ms)

  -- The members share no value.
  abbrev pub Differ : (Signal M → Option String) → List (Member M) → Type 0
  Differ get ms = (v : String) → ¬ Share get v ms

  common-Differ :
      (get : Signal M → Option String) (m : Member M) (ms : List (Member M))
      → Differ get (m ∷ ms)
      → common (m ∷ ms) get ≡ none
  common-Differ get m ms h = elim (Option-cases (common (m ∷ ms) get)) [
    | inl e ↦ e
    | inr (v, e) ↦ absurd (h v (common_up get v m ms e))
  ]

  -- What a digest says of the members `ms`.
  pub record Sums (ms : List (Member M)) (d : Signal M) : Type 0 where
    pub severity : IsHighest d.severity ms
    pub source : (v : String) → Share (λ s. some s.source) v ms → d.source ≡ v
    pub event_type : (v : String) → Share (λ s. some s.event_type) v ms → d.event_type ≡ v
    pub mixed_source : Differ (λ s. some s.source) ms → d.source ≡ "opssignal"
    pub mixed_event_type : Differ (λ s. some s.event_type) ms → d.event_type ≡ "digest"
    pub service : IsShared d.service (λ s. s.service) ms
    pub component : IsShared d.component (λ s. s.component) ms
    pub environment : IsShared d.environment (λ s. s.environment) ms
    pub team : IsShared d.team (λ s. s.team) ms
    pub run_id : IsShared d.run_id (λ s. s.run_id) ms
    pub correlation_id : IsShared d.correlation_id (λ s. s.correlation_id) ms
    pub trace_id : IsShared d.trace_id (λ s. s.trace_id) ms
    pub log_url : IsShared d.log_url (λ s. s.log_url) ms
    pub action : d.action ≡ trigger

module _ (sha256 : String → String) (key_of : Route → String) (json_text : Values → String)
    {M : Type 0} (json : Json M) (empty : M) (id now : ℕ) where
  abbrev pub key_for : Closed M → String
  key_for closed =
      format ("digest:" ∷ sha256 (group_key key_of json_text closed.route closed.by) ∷ [])

  -- A group that has members has a digest. Its severity is the highest of the members: none has a
  -- higher one, and one has it. Its source and event type are the members', if they share them, and
  -- otherwise `opssignal` and `digest`; service, component, environment, team, run, correlation and
  -- trace id and log URL are set to a value just when all members have it. The title is the first
  -- one's and counts the others; the message has a line with severity and title for each of the
  -- first 20 members, in order, and then says how many are left, if any; the metadata is the object
  -- with their count, the group's values, the earliest and the latest of their times, and the first
  -- 100 members. It is a trigger, and its dedup key depends on the route and the group's values
  -- alone.
  pub digest-Sums :
      (closed : Closed M) (m : Member M) (ms : List (Member M))
      → closed.members ≡ m ∷ ms
      → (d : Signal M) × (digest json sha256 key_of json_text empty id now closed ≡ some d)
        × Sums (m ∷ ms) d
        × Lists json closed.by m ms d.title d.message d.metadata
        × (d.dedup_key ≡ some (key_for closed))
  unfolding digest digest_input from_input effective_dedup_key
  digest-Sums closed m ms e = (
    from_input sha256 empty id now (digest_input json (key_for closed) closed.by m ms),
    rw e refl,
    record {
      severity = highest-IsHighest m ms;
      source = λ v h. rw (common_down _ v m ms h) refl;
      event_type = λ v h. rw (common_down _ v m ms h) refl;
      mixed_source = λ h. rw (common-Differ _ m ms h) refl;
      mixed_event_type = λ h. rw (common-Differ _ m ms h) refl;
      service = common-IsShared _ m ms;
      component = common-IsShared _ m ms;
      environment = common-IsShared _ m ms;
      team = common-IsShared _ m ms;
      run_id = common-IsShared _ m ms;
      correlation_id = common-IsShared _ m ms;
      trace_id = common-IsShared _ m ms;
      log_url = common-IsShared _ m ms;
      action = refl;
    },
    digest_input-Lists json (key_for closed) closed.by m ms,
    refl,
  )
