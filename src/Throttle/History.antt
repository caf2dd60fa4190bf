-- ===== src/Throttle/History.antt =====
-- The specification of the throttle: a history that forgets nothing, and the decision on a send by
-- it. A route's windows belong to its key, which is a hash of the route's definition.
use ops_signal.Prelude.{
  ℕ, ◌≤◌, String, Bool, true, false, ◌||◌, Option, List, [], ◌∷◌, ◌++◌, Result, ok, err,
  if◌then◌else◌,
}
use ops_signal.Window.{Window}
use ops_signal.Routing.{RateLimit}
use ops_signal.Throttle.{Row, Table, try_admit}
use ops_signal.Throttle.Rows.{repeats, is_full}

-- The windows of a route, by its key.
pub record Rules : Type 0 where
  pub dedup : Option Window
  pub rate : Option RateLimit

abbrev pub is_ok {ℓ κ} : {E : Type κ} {A : Type ℓ} → Result E A → Bool
is_ok (ok _) = true
is_ok (err _) = false

-- What the rules say of a send after the sends of a history.
abbrev pub turns_down : Rules → List Row → Row → Bool
turns_down rules history send =
    repeats send.route send.key send.sent_at rules.dedup history
    || is_full send.route send.sent_at rules.rate history

-- Each send is no earlier than the one before.
abbrev pub InOrder : ℕ → List Row → Type 0
InOrder now [] = Unit
InOrder now (send ∷ sends) = (now ≤ send.sent_at) × InOrder send.sent_at sends

module _ (rules : String → Rules) where
  -- The sends that are let through, of those that are asked for, by the table that `try_admit`
  -- keeps.
  unfoldable pub admitted : Table → List Row → List Row
  admitted table [] = []
  admitted table (send ∷ sends) =
      let (table', verdict) =
        try_admit table send (rules send.route).dedup (rules send.route).rate in
      let rest = admitted table' sends in if is_ok verdict then send ∷ rest else rest

  -- The same by the whole history.
  unfoldable pub permitted : List Row → List Row → List Row
  permitted history [] = []
  permitted history (send ∷ sends) =
      let later = permitted history sends in
      let rest = permitted (history ++ send ∷ []) sends in
      if turns_down (rules send.route) history send then later else send ∷ rest
