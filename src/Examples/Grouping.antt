-- ===== src/Examples/Grouping.antt =====
-- crates/core/src/group.rs on concrete signals.
use ops_signal.Prelude.{
  split_on, strip_prefix, String, true, false, some, none, List, [], ◌∷◌, ◌≡◌, refl, map, format,
  join, or_default,
}
use ops_signal.Signal.{Signal, Severity, warning, error, default_input, from_input}
use ops_signal.Routing.{Route, failover}
use ops_signal.Groups.{add, take_group, take_all, Member, Closed, Values, no_groups}
use ops_signal.Groups.Fields.{Json, null_value, is_group_field}
use ops_signal.Groups.Digest.{digest}
use ops_signal.Groups.Entries.{IsWell}
use ops_signal.Groups.Kept.{Event, adds, expires, flushes, added, run, Keeps, Keeps-run}
use ops_signal.Groups.Listed.{Lists}
use ops_signal.Groups.Digests.{Sums, key_for, digest-Sums}

abbrev pub json : Json (Unit {0})
json = record {
  get = λ v name. none;
  view = λ v. null_value;
  object = λ fields. tt;
  array = λ vs. tt;
  string = λ s. tt;
  number = λ n. tt;
  null_json = tt;
  id_text = λ n. tt;
  time_text = λ n. tt;
}

abbrev pub values_text : Values → String
values_text by = join "," (map (λ f. or_default "" f.1) by)

abbrev pub key_of : Route → String
key_of route = "r"

abbrev route : Route
route = record {
  match_rule = record { severity = []; environment = none; source = none };
  providers = "slack" ∷ [];
  mode = failover;
  dedup = none;
  rate_limit = none;
  group_by = some ("run_id" ∷ []);
  group_wait = none;
}

abbrev pub member : String → Severity → String → Member (Unit {0})
member title severity run = record {
  signal =
      from_input (λ s. s) tt 1 10
        (record (default_input {M = Unit {0}}) {
          source = "airflow";
          event_type = "task_failed";
          title = title;
          severity = severity;
          run_id = some run;
        });
  admission = record { rows = [] };
  owns_row = true;
}

abbrev events : List (Event (Unit {0}))
events =
    adds route (member "a" warning "1")
    ∷ adds route (member "b" error "1")
    ∷ adds route (member "c" warning "2")
    ∷ expires "r\n1" 7
    ∷ expires "r\n1" 1
    ∷ flushes
    ∷ []

well : IsWell {M = Unit {0}} no_groups
well = record { keyed = tt; sized = tt; numbered = tt }

-- The timer of the first group takes it, one with another number does not.
titles :
    map (λ c. map (λ m. m.signal.title) c.members) (run key_of values_text json events no_groups).1
    ≡ ("a" ∷ "b" ∷ []) ∷ ("c" ∷ []) ∷ []
unfolding from_input default_input format join add take_group take_all strip_prefix
titles = refl

Keeps-run_example :
    Keeps no_groups
      (run key_of values_text json events no_groups).0
      (added events)
      (run key_of values_text json events no_groups).1
Keeps-run_example = Keeps-run key_of values_text json events no_groups well

path_parts : split_on 46 "job.name" ≡ "job" ∷ "name" ∷ []
unfolding split_on
path_parts = refl

no_empty_part : is_group_field "metadata.job." ≡ false
unfolding is_group_field strip_prefix split_on
no_empty_part = refl

abbrev pub pair : List (Member (Unit {0}))
pair = member "b" error "1" ∷ []

abbrev pub closed : Closed (Unit {0})
closed = record { route = route; by = []; members = member "a" warning "1" ∷ pair }

digest-Sums_example :
    (d : Signal (Unit {0})) × (digest json (λ s. s) key_of values_text tt 2 20 closed ≡ some d)
    × Sums (member "a" warning "1" ∷ pair) d
    × Lists json [] (member "a" warning "1") pair d.title d.message d.metadata
    × (d.dedup_key ≡ some (key_for (λ s. s) key_of values_text json tt 2 20 closed))
digest-Sums_example =
    digest-Sums (λ s. s) key_of values_text json tt 2 20 closed (member "a" warning "1") pair refl
