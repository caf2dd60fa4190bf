-- ===== src/Groups/Fields.antt =====
-- The `group_by` fields of crates/core/src/group.rs.
use Prim.Native.String.{String}
use ops_signal.Prelude.{
  strip_prefix, split_on, ℕ, Bool, false, not, ◌&&◌, ◌||◌, Option, none, some, List, [], ◌∷◌, ◌==◌,
  map, all, contains, is_empty, or_default, if◌then◌else◌,
}
use ops_signal.Signal.{Signal, show_severity}
use ops_signal.Routing.{Route}

-- How a value shows: `null`, a string, or any other with its JSON text.
pub data View : Type 0 where
  null_value : View
  string_value other_value : String → View

-- What the source uses of `serde_json::Value`: `Value::get` by a name, the kind of a value, and the
-- values that `json!` builds. An id and a timestamp are serialized as texts of their own.
pub record Json (M : Type 0) : Type 0 where
  pub get : M → String → Option M
  pub view : M → View
  pub object : List (String × M) → M
  pub array : List M → M
  pub string : String → M
  pub number : ℕ → M
  pub null_json : M
  pub id_text : ℕ → M
  pub time_text : ℕ → M

-- `GROUP_FIELDS`.
abbrev pub group_fields : List String
group_fields =
    "source" ∷ "service" ∷ "component" ∷ "event_type" ∷ "severity" ∷ "title" ∷ "environment"
    ∷ "team" ∷ "run_id" ∷ "correlation_id" ∷ "dedup_key" ∷ []

-- `is_group_field`.
unfoldable pub is_group_field : String → Bool
is_group_field field = contains field group_fields || (elim (strip_prefix "metadata." field) [
  | none ↦ false
  | some path ↦ not (is_empty path) && all (λ p. not (is_empty p)) (split_on 46 path)
])

module _ {M : Type 0} (json : Json M) where
  -- The loop over the parts of a path.
  unfoldable pub walk_path : List String → M → Option M
  walk_path [] value = some value
  walk_path (part ∷ parts) value = elim (json.get value part) [
    | none ↦ none
    | some child ↦ walk_path parts child
  ]

  abbrev pub text_of : View → Option String
  text_of null_value = none
  text_of (string_value s) = some s
  text_of (other_value s) = some s

  -- The `match field`.
  unfoldable pub named_field : Signal M → String → Option String
  named_field signal field =
      if field == "source"
      then some signal.source
      else if field == "service"
      then signal.service
      else if field == "component"
      then signal.component
      else if field == "event_type"
      then some signal.event_type
      else if field == "severity"
      then some (show_severity signal.severity)
      else if field == "title"
      then some signal.title
      else if field == "environment"
      then signal.environment
      else if field == "team"
      then signal.team
      else if field == "run_id"
      then signal.run_id
      else if field == "correlation_id"
      then signal.correlation_id
      else if field == "dedup_key"
      then signal.dedup_key
      else none

  -- `field_value`.
  unfoldable pub field_value : Signal M → String → Option String
  unfolding walk_path named_field
  field_value signal field = elim (strip_prefix "metadata." field) [
    | none ↦ named_field signal field
    | some path ↦ elim (walk_path (split_on 46 path) signal.metadata) [
      | none ↦ none
      | some value ↦ text_of (json.view value)
    ]
  ]

  -- `group_values`.
  unfoldable pub group_values : Route → Signal M → List (String × Option String)
  unfolding field_value
  group_values route signal =
      map (λ field. (field, field_value signal field)) (or_default [] route.group_by)
