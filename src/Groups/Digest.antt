-- ===== src/Groups/Digest.antt =====
-- `digest` of crates/core/src/group.rs: the signal that a group of several is sent as. The source
-- reads the first member; `none` is the panic that an empty group would be.
use ops_signal.Prelude.{
  ℕ, ◌-◌, min, max, String, Option, none, some, List, [], ◌∷◌, ◌++◌, map, all, take, length, ltb,
  leb, or_default, format, join, decimal, if◌then◌else◌,
}
use ops_signal.Signal.{
  Severity, info, success, warning, error, critical, show_severity, Signal, SignalInput, trigger,
  from_input,
}
use ops_signal.Routing.{Route, is_text}
use ops_signal.Groups.{Member, Closed, Values, group_key}
use ops_signal.Groups.Fields.{Json}

-- `LISTED_IN_MESSAGE` and `LISTED_IN_METADATA`.
abbrev pub listed_in_message : ℕ
listed_in_message = 20

abbrev pub listed_in_metadata : ℕ
listed_in_metadata = 100

-- `rank`.
unfoldable pub rank : Severity → ℕ
rank info = 0
rank success = 1
rank warning = 2
rank error = 3
rank critical = 4

module _ {M : Type 0} where
  -- `max_by_key(rank)`: of equals, the last.
  unfoldable pub highest_from : Severity → List (Member M) → Severity
  unfolding rank
  highest_from s [] = s
  highest_from s (m ∷ ms) =
      highest_from (if leb (rank s) (rank m.signal.severity) then m.signal.severity else s) ms

  unfoldable pub highest : List (Member M) → Severity
  unfolding highest_from
  highest [] = info
  highest (m ∷ ms) = highest_from m.signal.severity ms

  -- `common`.
  unfoldable pub common : List (Member M) → (Signal M → Option String) → Option String
  common [] get = none
  common (m ∷ ms) get = elim (get m.signal) [
    | none ↦ none
    | some first ↦ if all (λ x. is_text (get x.signal) first) (m ∷ ms) then some first else none
  ]

  -- The lines of the message.
  abbrev pub line : Member M → String
  line m = format ("- [" ∷ show_severity m.signal.severity ∷ "] " ∷ m.signal.title ∷ [])

  unfoldable pub lines : List (Member M) → List String
  lines ms =
      let count = length ms in
      map line (take listed_in_message ms)
      ++ (if ltb listed_in_message count
          then format ("...and " ∷ decimal (count - listed_in_message) ∷ " more" ∷ []) ∷ []
          else [])

  -- `min` and `max` of the timestamps, from the first.
  unfoldable pub first_at : ℕ → List (Member M) → ℕ
  first_at t [] = t
  first_at t (m ∷ ms) = first_at (min t m.signal.timestamp) ms

  unfoldable pub last_at : ℕ → List (Member M) → ℕ
  last_at t [] = t
  last_at t (m ∷ ms) = last_at (max t m.signal.timestamp) ms

module _ {M : Type 0} (json : Json M) where
  abbrev pub json_text_of : Option String → M
  json_text_of none = json.null_json
  json_text_of (some s) = json.string s

  -- One element of `metadata.digest.signals`.
  abbrev pub listed : Member M → M
  listed m = json.object (
      ("id", json.id_text m.signal.id)
      ∷ ("title", json.string m.signal.title)
      ∷ ("severity", json.string (show_severity m.signal.severity))
      ∷ ("source", json.string m.signal.source)
      ∷ ("event_type", json.string m.signal.event_type)
      ∷ ("timestamp", json.time_text m.signal.timestamp)
      ∷ [])

  -- The `metadata` of a digest of the members `m ∷ ms`.
  unfoldable pub digest_metadata : Values → Member M → List (Member M) → M
  unfolding first_at last_at
  digest_metadata by m ms = json.object (
      (
        "digest",
        json.object (
            ("count", json.number (length (m ∷ ms)))
            ∷ ("group", json.object (map (λ f. (f.0, json_text_of f.1)) by))
            ∷ ("first_at", json.time_text (first_at m.signal.timestamp ms))
            ∷ ("last_at", json.time_text (last_at m.signal.timestamp ms))
            ∷ ("signals", json.array (map listed (take listed_in_metadata (m ∷ ms))))
            ∷ []),
      )
      ∷ [])

  -- The input that the digest is stamped from; `key` is its dedup key.
  unfoldable pub digest_input : String → Values → Member M → List (Member M) → SignalInput M
  unfolding common highest lines digest_metadata
  digest_input key by m ms =
      let members = m ∷ ms in
      record {
        source = or_default "opssignal" (common members (λ s. some s.source));
        service = common members (λ s. s.service);
        component = common members (λ s. s.component);
        event_type = or_default "digest" (common members (λ s. some s.event_type));
        severity = highest members;
        title = format (m.signal.title ∷ " (+" ∷ decimal (length members - 1) ∷ " more)" ∷ []);
        message = some (join "\n" (lines members));
        environment = common members (λ s. s.environment);
        team = common members (λ s. s.team);
        run_id = common members (λ s. s.run_id);
        correlation_id = common members (λ s. s.correlation_id);
        trace_id = common members (λ s. s.trace_id);
        log_url = common members (λ s. s.log_url);
        metadata = some (digest_metadata by m ms);
        dedup_key = some key;
        action = trigger;
      }

  module _ (sha256 : String → String) (key_of : Route → String) (json_text : Values → String)
      (empty : M) where
    digest_of : ℕ → ℕ → Closed M → List (Member M) → Option (Signal M)
    digest_of id now closed [] = none
    digest_of id now closed (m ∷ ms) = some (
        from_input sha256 empty id now (
          digest_input
            (format ("digest:" ∷ sha256 (group_key key_of json_text closed.route closed.by) ∷ []))
            closed.by m ms))

    -- `digest`.
    unfoldable pub digest : ℕ → ℕ → Closed M → Option (Signal M)
    unfolding digest_of digest_input from_input group_key
    digest id now closed = digest_of id now closed closed.members
