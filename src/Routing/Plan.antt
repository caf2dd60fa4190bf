-- ===== src/Routing/Plan.antt =====
-- `RoutingConfig::plan_with` (crates/core/src/routing.rs). The gate is stateful (`FnMut`): it takes
-- and returns a state of any type `S`. `seen` is the providers placed so far, `failover` the index
-- of the target that the failover routes share.
use ops_signal.Prelude.{
  ℕ, zero, suc, ◌+◌, String, ◌&&◌, Option, none, some, List, [], ◌∷◌, ◌++◌, null, length, contains,
  concat, Result, ok, err, format, if◌then◌else◌,
}
use ops_signal.Window
use ops_signal.Window.{Window}
use ops_signal.Signal.{Signal}
use ops_signal.Routing.{
  Route, DeliveryMode, failover, fanout, matches, gates_signals, group_window, describe,
}

-- `DeliveryPlan`.
pub record DeliveryPlan : Type 0 where
  pub targets : List (List String)
  pub suppressed : List String
  pub grouped : List (ℕ × String)

-- `DeliveryPlan::providers`.
unfoldable pub providers : DeliveryPlan → List String
providers plan = concat plan.targets

-- The variables of the loop.
pub record Planning : Type 0 where
  pub seen : List String
  pub targets : List (List String)
  pub shared : Option ℕ
  pub suppressed : List String
  pub grouped : List (ℕ × String)

abbrev pub unplanned : Planning
unplanned = record { seen = []; targets = []; shared = none; suppressed = []; grouped = [] }

-- `targets[i].push(name)`; the index is always in bounds.
unfoldable pub push_at : List (List String) → ℕ → String → List (List String)
push_at [] i name = []
push_at (t ∷ ts) zero name = (t ++ name ∷ []) ∷ ts
push_at (t ∷ ts) (suc i) name = t ∷ push_at ts i name

-- The `match (route.mode, failover)`.
unfoldable pub place : DeliveryMode → Option ℕ → String → Planning → Planning
unfolding push_at
place fanout shared name p = record p { targets = p.targets ++ (name ∷ []) ∷ [] }
place failover (some i) name p = record p { targets = push_at p.targets i name }
place failover none name p = record p {
  shared = some (length p.targets);
  targets = p.targets ++ (name ∷ []) ∷ [];
}

-- One provider of a route: skipped if an earlier route or entry named it.
unfoldable pub add_provider : DeliveryMode → String → Planning → Planning
unfolding place
add_provider mode name p =
    if contains name p.seen
    then p
    else place mode p.shared name (record p { seen = p.seen ++ name ∷ [] })

unfoldable pub add_providers : DeliveryMode → List String → Planning → Planning
unfolding add_provider
add_providers mode [] p = p
add_providers mode (name ∷ rest) p = add_providers mode rest (add_provider mode name p)

-- A matching route that the gate let pass: held for a digest, or its providers are added.
unfoldable pub take_route : ℕ → Route → Planning → Planning
unfolding add_providers group_window
take_route i route p = elim (group_window route) [
  | some wait ↦ record p {
    grouped =
        p.grouped
        ++ (
          i,
          format (
              "route "
              ∷ describe route
              ∷ ": held for a digest (group_wait "
              ∷ Window.show wait
              ∷ ")"
              ∷ []),
        )
          ∷ [];
  }
  | none ↦ add_providers route.mode route.providers p
]

-- What the gate said of a route: the reason if it turned it down.
unfoldable pub gated : ℕ → Route → Result String (Unit {0}) → Planning → Planning
unfolding take_route
gated i route (ok _) p = take_route i route p
gated i route (err reason) p = record p {
  suppressed = p.suppressed ++ format ("route " ∷ describe route ∷ ": " ∷ reason ∷ []) ∷ [];
}

-- The end of `plan_with`: the console, if nothing was planned, suppressed or held.
unfoldable pub finish : Planning → DeliveryPlan
finish p = record {
  targets =
      if null p.targets && null p.suppressed && null p.grouped
      then ("console" ∷ []) ∷ []
      else p.targets;
  suppressed = p.suppressed;
  grouped = p.grouped;
}

module _ {S M : Type 0} (admit : S → Route → S × Result String (Unit {0})) (signal : Signal M) where
  -- The body of the loop over the routes.
  unfoldable pub plan_route : ℕ → Route → S → Planning → S × Planning
  unfolding gated
  plan_route i route s p =
      if matches route.match_rule signal
      then (if gates_signals route
          then (let (s', verdict) = admit s route in (s', gated i route verdict p))
          else (s, take_route i route p))
      else (s, p)

  unfoldable pub plan_routes : ℕ → List Route → S → Planning → S × Planning
  unfolding plan_route
  plan_routes i [] s p = (s, p)
  plan_routes i (route ∷ rest) s p =
      let (s', p') = plan_route i route s p in plan_routes (i + 1) rest s' p'

  -- `RoutingConfig::plan_with`.
  unfoldable pub plan_with : List Route → S → S × DeliveryPlan
  unfolding plan_routes finish
  plan_with routes s = let (s', p) = plan_routes 0 routes s unplanned in (s', finish p)

-- The gate of `plan`: every route passes.
abbrev pub open_gate : Unit {0} → Route → Unit {0} × Result String (Unit {0})
open_gate s route = (s, ok tt)

-- `RoutingConfig::plan`.
unfoldable pub plan : {M : Type 0} → List Route → Signal M → DeliveryPlan
unfolding plan_with
plan routes signal = (plan_with open_gate signal routes tt).1

-- `RoutingConfig::resolve`.
unfoldable pub resolve : {M : Type 0} → List Route → Signal M → List String
unfolding plan providers
resolve routes signal = providers (plan routes signal)
