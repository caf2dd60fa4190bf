-- ===== src/Throttle.antt =====
-- crates/core/src/throttle.rs: route `dedup` and `rate_limit` over the `throttle` table.
-- The table is the list of its rows, in `rowid` order; a transaction that is not committed leaves
-- it as it was. Times are milliseconds, as numbers from 0; the source's tests on differences of
-- `i64` (`now - t < w`, `sent_at > now - per`) are written as sums, which say the same. SHA-256
-- and the JSON text of a route are arguments. SQLite may fail at any statement: `fault` says
-- whether it does in a call.
pub mod Rows
pub mod History
pub mod Forgets
pub mod Spacing
pub mod Deletes
pub mod Release
use ops_signal.Prelude.{
  ℕ, suc, ◌+◌, ◌*◌, ◌-◌, ◌/◌, ◌^◌, min, max, String, Bool, true, false, not, ◌&&◌, ◌||◌, Option,
  none, some, List, [], ◌∷◌, ◌++◌, ◌==◌, eqb, ltb, leb, keep, is_none, or_default, format, decimal,
  Result, ok, err, if◌then◌else◌,
}
use ops_signal.Window
use ops_signal.Window.{Window}
use ops_signal.Signal.{Signal}
use ops_signal.Routing.{Route, RateLimit, is_grouped}

-- One admitted send: a row of the table `throttle`.
pub record Row : Type 0 where
  pub route : String
  pub key : String
  pub sent_at : ℕ

abbrev pub Table : Type 0
Table = List Row

-- `Admission`: the sends recorded for one signal.
pub record Admission : Type 0 where
  pub rows : List Row

abbrev pub i64_max : ℕ
i64_max = 2 ^ 63 - 1

-- `millis`.
abbrev pub millis : Window → ℕ
millis w = min (w.secs * 1000) i64_max

-- `ago`.
unfoldable pub ago : ℕ → String
ago ms =
    let secs = ms / 1000 in
    if ltb secs 60
    then format (decimal secs ∷ "s" ∷ [])
    else if ltb secs 3600
    then format (decimal (secs / 60) ∷ "m" ∷ [])
    else format (decimal (secs / 3600) ∷ "h" ∷ [])

-- `route_key`: the hash of the route's whole definition.
unfoldable pub route_key : (String → String) → (Route → String) → Route → String
route_key sha256 json route = sha256 (json route)

abbrev pub max_option : Option ℕ → ℕ → ℕ
max_option none n = n
max_option (some m) n = max m n

-- `SELECT MAX(sent_at) … WHERE route = ?1 AND dedup_key = ?2`.
unfoldable pub latest : String → String → Table → Option ℕ
latest route key [] = none
latest route key (r ∷ rows) =
    let rest = latest route key rows in
    if r.route == route && r.key == key then some (max_option rest r.sent_at) else rest

-- `SELECT COUNT(*) … WHERE route = ?1 AND sent_at > ?2`, with `?2` the time `per` before `now`.
unfoldable pub count_since : String → ℕ → ℕ → Table → ℕ
count_since route now per [] = 0
count_since route now per (r ∷ rows) =
    let rest = count_since route now per rows in
    if r.route == route && ltb now (r.sent_at + per) then suc rest else rest

-- `DELETE … WHERE route = ?1 AND sent_at <= ?2`, with `?2` the time `window` before `now`.
unfoldable pub prune : String → ℕ → ℕ → Table → Table
prune route now window = keep (λ r. not (r.route == route && leb (r.sent_at + window) now))

-- The first test of `try_admit`: the reason, if `dedup` turns the send down.
unfoldable pub duplicate : String → String → ℕ → Option Window → Table → Option String
unfolding latest
duplicate route key now none table = none
duplicate route key now (some window) table = elim (latest route key table) [
  | none ↦ none
  | some last ↦
      if ltb now (last + millis window)
      then some (
          format (
            "duplicate of a signal sent "
            ∷ ago (now - last)
            ∷ " ago (dedup "
            ∷ Window.show window
            ∷ ")"
            ∷ []))
      else none
]

-- The second test: the reason, if `rate_limit` turns the send down.
unfoldable pub over_limit : String → ℕ → Option RateLimit → Table → Option String
unfolding count_since
over_limit route now none table = none
over_limit route now (some limit) table =
    if leb limit.max (count_since route now (millis limit.per) table)
    then some (
        format (
          "rate limit of " ∷ decimal limit.max ∷ " per " ∷ Window.show limit.per ∷ " reached" ∷ []))
    else none

-- How long a row can decide anything: the longer of the two windows.
abbrev pub window_of : Option Window → ℕ
window_of none = 0
window_of (some w) = millis w

abbrev pub period_of : Option RateLimit → ℕ
period_of none = 0
period_of (some limit) = millis limit.per

-- `Throttle::try_admit`, the statements of one transaction that meets no storage error.
unfoldable pub try_admit :
    Table → Row → Option Window → Option RateLimit → Table × Result String (Unit {0})
unfolding duplicate over_limit prune
try_admit table send dedup rate = elim (duplicate send.route send.key send.sent_at dedup table) [
  | some reason ↦ (table, err reason)
  | none ↦ elim (over_limit send.route send.sent_at rate table) [
    | some reason ↦ (table, err reason)
    | none ↦ (
      prune send.route send.sent_at (max (window_of dedup) (period_of rate)) (table ++ send ∷ []),
      ok tt,
    )
  ]
]

-- What a check works on: the shared table, and the sends recorded for this signal.
pub record Gate : Type 0 where
  pub table : Table
  pub admission : Admission

record_send : Gate → Row → Table × Result String (Unit {0}) → Gate × Result String (Unit {0})
record_send g send (table, ok _) =
    (record { table = table; admission = record { rows = g.admission.rows ++ send ∷ [] } }, ok tt)
record_send g send (table, err reason) = (record g { table = table }, err reason)

-- `Throttle::check`; a storage error lets the signal through and records nothing.
unfoldable pub check :
    Bool → Gate → Row → Option Window → Option RateLimit → Gate × Result String (Unit {0})
unfolding try_admit record_send
check fault g send dedup rate =
    if is_none dedup && is_none rate
    then (g, ok tt)
    else if fault
    then (g, ok tt)
    else record_send g send (try_admit g.table send dedup rate)

module _ (key_of : Route → String) {M : Type 0} (signal : Signal M) (now : ℕ) (fault : Bool) where
  -- `Throttle::admit`; `key_of` is `route_key`.
  unfoldable pub admit : Gate → Route → Gate × Result String (Unit {0})
  unfolding check is_grouped
  admit g route =
      check fault g
        (record { route = key_of route; key = or_default "" signal.dedup_key; sent_at = now })
        route.dedup (if is_grouped route then none else route.rate_limit)

  -- `Throttle::admit_digest`.
  unfoldable pub admit_digest : Gate → Route → Gate × Result String (Unit {0})
  unfolding check
  admit_digest g route =
      check fault g
        (record {
          route = format (key_of route ∷ "#digest" ∷ []);
          key = or_default "" signal.dedup_key;
          sent_at = now;
        })
        none route.rate_limit

abbrev pub same_row : Row → Row → Bool
same_row a b = a.route == b.route && a.key == b.key && eqb a.sent_at b.sent_at

-- `DELETE … LIMIT 1`: the first row that is the given one.
unfoldable pub delete_one : Row → Table → Table
delete_one send [] = []
delete_one send (r ∷ rows) =
    let rest = delete_one send rows in if same_row r send then rows else r ∷ rest

-- `Throttle::release`; `fault` says for which rows the DELETE fails, which is logged.
unfoldable pub release : (Row → Bool) → Table → List Row → Table
unfolding delete_one
release fault table [] = table
release fault table (r ∷ rows) = release fault (if fault r then table else delete_one r table) rows

-- `Admission::split_off`: the sends of the route, and the others.
unfoldable pub split_off : (Route → String) → Admission → Route → Admission × Admission
split_off key_of a route = (
  record { rows = keep (λ r. r.route == key_of route) a.rows },
  record { rows = keep (λ r. not (r.route == key_of route)) a.rows },
)
