-- ===== src/Groups.antt =====
-- crates/core/src/group.rs: the open groups of a client, and in `Groups/Digest.antt` the signal
-- that a closed group is sent as. The map of open groups is an association list; `drain` has an
-- order of its own, and here takes the entries in theirs. `Json` is what the source uses of
-- `serde_json`.
pub mod Fields
pub mod Digest
pub mod Entries
pub mod Kept
pub mod Times
pub mod Listed
pub mod Digests
use ops_signal.Prelude.{
  ℕ, suc, ◌+◌, String, Bool, Option, none, some, List, [], ◌∷◌, ◌++◌, ◌==◌, map, find, keep, not,
  length, ltb, eqb, or_default, format, if◌then◌else◌,
}
use ops_signal.Window.{Window}
use ops_signal.Signal.{Signal}
use ops_signal.Routing.{Route, group_window}
use ops_signal.Throttle.{Admission}
use Fields.{Json, group_values}

-- `MAX_GROUP_SIZE`.
abbrev pub max_group_size : ℕ
max_group_size = 500

abbrev pub Values : Type 0
Values = List (String × Option String)

-- `Member`.
pub record Member (M : Type 0) : Type 0 where
  pub signal : Signal M
  pub admission : Admission
  pub owns_row : Bool

-- `Closed`; its guard is counted in `Groups`.
pub record Closed (M : Type 0) : Type 0 where
  pub route : Route
  pub by : Values
  pub members : List (Member M)

-- `Open`, with the key that the map holds it under.
pub record Open (M : Type 0) : Type 0 where
  pub key : String
  pub seq : ℕ
  pub route : Route
  pub by : Values
  pub members : List (Member M)

-- `Added`.
pub data Added (M : Type 0) : Type 0 where
  joined : Added M
  opens : String → ℕ → Window → Added M
  full : Closed M → Added M

-- `Groups`; `in_flight` is the count that the guards of closed groups raise.
pub record Groups (M : Type 0) : Type 0 where
  pub entries : List (Open M)
  pub next_seq : ℕ
  pub in_flight : ℕ

-- `Groups::new`.
abbrev pub no_groups : {M : Type 0} → Groups M
no_groups = record { entries = []; next_seq = 0; in_flight = 0 }

-- `HashMap::get`, `remove`, and the push through `get_mut`.
abbrev pub entry : {M : Type 0} → String → List (Open M) → Option (Open M)
entry key = find (λ g. g.key == key)

abbrev pub without : {M : Type 0} → String → List (Open M) → List (Open M)
without key = keep (λ g. not (g.key == key))

unfoldable pub push_member : {M : Type 0} → String → Member M → List (Open M) → List (Open M)
push_member key m [] = []
push_member key m (g ∷ gs) =
    let rest = push_member key m gs in
    if g.key == key then record g { members = g.members ++ m ∷ [] } ∷ gs else g ∷ rest

-- `group_key`, of the route's hash and the JSON text of the values.
unfoldable pub group_key : (Route → String) → (Values → String) → Route → Values → String
group_key key_of json_text route by = format (key_of route ∷ "\n" ∷ json_text by ∷ [])

module _ {M : Type 0} where
  -- `Groups::close`: the guard counts the send from here on.
  abbrev pub close : Open M → Closed M
  close g = record { route = g.route; by = g.by; members = g.members }

  abbrev pub drop_entry : String → Groups M → Groups M
  drop_entry key gs = record gs { entries = without key gs.entries; in_flight = suc gs.in_flight }

  -- `Groups::add` from the group's key and values, when the key is open, or not.
  unfoldable pub join : String → Member M → Open M → Groups M → Groups M × Added M
  unfolding push_member
  join key m g gs =
      let members = g.members ++ m ∷ [] in
      if ltb (length members) max_group_size
      then (record gs { entries = push_member key m gs.entries }, joined)
      else (drop_entry key gs, full (close (record g { members = members })))

  unfoldable pub open_group : String → Values → Route → Member M → Groups M → Groups M × Added M
  unfolding group_window
  open_group key by route m gs = (
    record gs {
      next_seq = suc gs.next_seq;
      entries =
          gs.entries
          ++ record { key = key; seq = suc gs.next_seq; route = route; by = by; members = m ∷ [] }
            ∷ [];
    },
    opens key (suc gs.next_seq) (or_default (record { secs = 0 }) (group_window route)),
  )

  unfoldable pub add_at : String → Values → Route → Member M → Groups M → Groups M × Added M
  unfolding join open_group
  add_at key by route m gs = elim (entry key gs.entries) [
    | some g ↦ join key m g gs
    | none ↦ open_group key by route m gs
  ]

  -- `Groups::take`.
  unfoldable pub take_group : String → ℕ → Groups M → Groups M × Option (Closed M)
  take_group key seq gs = elim (entry key gs.entries) [
    | some g ↦ if eqb g.seq seq then (drop_entry key gs, some (close g)) else (gs, none)
    | none ↦ (gs, none)
  ]

  -- `Groups::take_all`.
  unfoldable pub take_all : Groups M → Groups M × List (Closed M)
  take_all gs = (
    record gs { entries = []; in_flight = gs.in_flight + length gs.entries },
    map close gs.entries,
  )

module _ (key_of : Route → String) (json_text : Values → String) {M : Type 0} (json : Json M) where
  -- `Groups::add`.
  unfoldable pub add : Route → Member M → Groups M → Groups M × Added M
  unfolding add_at group_values group_key
  add route m gs =
      let by = group_values json route m.signal in
      add_at (group_key key_of json_text route by) by route m gs
