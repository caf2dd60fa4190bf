-- ===== src/Routing/Decisions.antt =====
-- What a plan says of each route on its own: the specification that `plan_with`
-- (crates/core/src/routing.rs) is held to. Only the state of the gate goes from route to route.
use ops_signal.Prelude.{
  ℕ, ◌+◌, String, Bool, false, ◌||◌, some, none, List, [], ◌∷◌, contains, format, Result, ok, err,
  if◌then◌else◌,
}
use ops_signal.Window
use ops_signal.Window.{Window}
use ops_signal.Signal.{Signal}
use ops_signal.Routing.{Route, matches, gates_signals, group_window, describe}

pub data Decision : Type 0 where
  no_match : Decision
  turned_down : Route → String → Decision
  held : Route → Window → Decision
  sent : Route → Decision

-- A route that is not turned down is held if it groups, and sent if not.
unfoldable pub pass : Route → Decision
pass route = elim (group_window route) [ none ↦ sent route | some wait ↦ held route wait ]

unfoldable pub judge : Route → Result String (Unit {0}) → Decision
unfolding pass
judge route (ok _) = pass route
judge route (err reason) = turned_down route reason

module _ {S M : Type 0} (admit : S → Route → S × Result String (Unit {0})) (signal : Signal M) where
  unfoldable pub decide_route : Route → S → S × Decision
  unfolding judge
  decide_route route s =
      if matches route.match_rule signal
      then (if gates_signals route
          then (let (s', verdict) = admit s route in (s', judge route verdict))
          else (s, pass route))
      else (s, no_match)

  unfoldable pub decide_routes : List Route → S → S × List Decision
  unfolding decide_route
  decide_routes [] s = (s, [])
  decide_routes (route ∷ rest) s =
      let (s', d) = decide_route route s in let (t, ds) = decide_routes rest s' in (t, d ∷ ds)

-- The reasons, one line for each route that was turned down, in route order.
unfoldable pub suppressed_lines : List Decision → List String
suppressed_lines [] = []
suppressed_lines (turned_down route reason ∷ ds) =
    format ("route " ∷ describe route ∷ ": " ∷ reason ∷ []) ∷ suppressed_lines ds
suppressed_lines (no_match ∷ ds) = suppressed_lines ds
suppressed_lines (held _ _ ∷ ds) = suppressed_lines ds
suppressed_lines (sent _ ∷ ds) = suppressed_lines ds

-- The routes that hold the signal, each by its index and a line, in route order.
unfoldable pub held_lines : ℕ → List Decision → List (ℕ × String)
held_lines i [] = []
held_lines i (held route wait ∷ ds) =
    (
      i,
      format (
          "route "
          ∷ describe route
          ∷ ": held for a digest (group_wait "
          ∷ Window.show wait
          ∷ ")"
          ∷ []),
    )
    ∷ held_lines (i + 1) ds
held_lines i (no_match ∷ ds) = held_lines (i + 1) ds
held_lines i (turned_down _ _ ∷ ds) = held_lines (i + 1) ds
held_lines i (sent _ ∷ ds) = held_lines (i + 1) ds

-- Some route that sends now lists the provider.
unfoldable pub sends_to : String → List Decision → Bool
sends_to n [] = false
sends_to n (sent route ∷ ds) = contains n route.providers || sends_to n ds
sends_to n (no_match ∷ ds) = sends_to n ds
sends_to n (turned_down _ _ ∷ ds) = sends_to n ds
sends_to n (held _ _ ∷ ds) = sends_to n ds
