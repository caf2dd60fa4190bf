-- ===== src/Throttle/Rows.antt =====
-- What the queries on the table `throttle` see (crates/core/src/throttle.rs).
use ops_signal.Prelude.{
  ℕ, ◌+◌, ◌≤◌, String, Bool, false, ◌&&◌, ◌||◌, Option, none, some, [], ◌∷◌, ◌++◌, ◌≡◌, ◌≢◌, refl,
  ◌==◌, eq_iff, ltb, leb, any, is_some, arith,
}
use ops_signal.Window.{Window}
use ops_signal.Routing.{RateLimit}
use ops_signal.Throttle.{Row, Table, millis, latest, count_since, prune, duplicate, over_limit}

-- Some send of the key on the route is less than `window` old.
abbrev pub blocks : String → String → ℕ → ℕ → Table → Bool
blocks route key now window =
    any (λ r. r.route == route && r.key == key && ltb now (r.sent_at + window))

abbrev within : ℕ → ℕ → Option ℕ → Bool
within now window none = false
within now window (some last) = ltb now (last + window)

-- The newest send decides for all.
latest-blocks :
    (route key : String) (now window : ℕ) (table : Table)
    → within now window (latest route key table) ≡ blocks route key now window table
unfolding latest
latest-blocks route key now window [] = refl
latest-blocks route key now window (r ∷ rows) =
    ground (arith, latest-blocks route key now window rows)

-- `dedup` turns the send down.
abbrev pub repeats : String → String → ℕ → Option Window → Table → Bool
repeats route key now none table = false
repeats route key now (some window) table = blocks route key now (millis window) table

-- `rate_limit` turns the send down.
abbrev pub is_full : String → ℕ → Option RateLimit → Table → Bool
is_full route now none table = false
is_full route now (some limit) table =
    leb limit.max (count_since route now (millis limit.per) table)

pub duplicate-repeats :
    (route key : String) (now : ℕ) (dedup : Option Window) (table : Table)
    → is_some (duplicate route key now dedup table) ≡ repeats route key now dedup table
unfolding duplicate
duplicate-repeats route key now none table = refl
duplicate-repeats route key now (some window) table =
    ground (arith, latest-blocks route key now (millis window) table)

pub over_limit-is_full :
    (route : String) (now : ℕ) (rate : Option RateLimit) (table : Table)
    → is_some (over_limit route now rate table) ≡ is_full route now rate table
unfolding over_limit
over_limit-is_full route now none table = refl
over_limit-is_full route now (some limit) table = ground arith

pub blocks-append_one :
    (route key : String) (now window : ℕ) (table : Table) (send : Row)
    → blocks route key now window (table ++ send ∷ [])
      ≡ (blocks route key now window table || blocks route key now window (send ∷ []))
blocks-append_one route key now window [] send = refl
blocks-append_one route key now window (r ∷ rows) send =
    ground (arith, blocks-append_one route key now window rows send)

pub count_since-append_one :
    (route : String) (now per : ℕ) (table : Table) (send : Row)
    → count_since route now per (table ++ send ∷ [])
      ≡ count_since route now per table + count_since route now per (send ∷ [])
unfolding count_since
count_since-append_one route now per [] send = omega arith
count_since-append_one route now per (r ∷ rows) send =
    ground (arith, count_since-append_one route now per rows send)

-- Pruning the rows of a route drops none that later queries on it can see, if they look back no
-- further.
pub blocks-prune :
    (route key : String) (now now' window kept : ℕ) (table : Table)
    → now ≤ now'
    → window ≤ kept
    → blocks route key now' window (prune route now kept table) ≡ blocks route key now' window table
unfolding prune
blocks-prune route key now now' window kept [] h k = refl
blocks-prune route key now now' window kept (r ∷ rows) h k =
    ground (arith, blocks-prune route key now now' window kept rows)

pub count_since-prune :
    (route : String) (now now' per kept : ℕ) (table : Table)
    → now ≤ now'
    → per ≤ kept
    → count_since route now' per (prune route now kept table) ≡ count_since route now' per table
unfolding prune count_since
count_since-prune route now now' per kept [] h k = refl
count_since-prune route now now' per kept (r ∷ rows) h k =
    ground (arith, count_since-prune route now now' per kept rows)

-- Pruning the rows of one route is nothing to another.
pub blocks-prune_ne :
    (route other key : String) (now now' window kept : ℕ) (table : Table)
    → other ≢ route
    → blocks route key now' window (prune other now kept table) ≡ blocks route key now' window table
unfolding prune
blocks-prune_ne route other key now now' window kept [] h = refl
blocks-prune_ne route other key now now' window kept (r ∷ rows) h = ground (
  arith,
  blocks-prune_ne route other key now now' window kept rows,
  eq_iff r.route route,
  eq_iff r.route other,
)

pub count_since-prune_ne :
    (route other : String) (now now' per kept : ℕ) (table : Table)
    → other ≢ route
    → count_since route now' per (prune other now kept table) ≡ count_since route now' per table
unfolding prune count_since
count_since-prune_ne route other now now' per kept [] h = refl
count_since-prune_ne route other now now' per kept (r ∷ rows) h = ground (
  arith,
  count_since-prune_ne route other now now' per kept rows,
  eq_iff r.route route,
  eq_iff r.route other,
)
