-- ===== src/Routing/Gates.antt =====
-- Which routes `plan_with` asks its gate about (crates/core/src/routing.rs).
use ops_signal.Prelude.{
  ℕ, ◌+◌, String, true, false, ◌&&◌, List, [], ◌∷◌, ◌++◌, ◌≡◌, refl, keep, Result, append-nil,
  append_assoc, Bool-cases, inl, inr, sym, ap, ◌∙◌,
}
use ops_signal.Signal.{Signal}
use ops_signal.Routing.{Route, matches, gates_signals}
use ops_signal.Routing.Plan.{
  Planning, unplanned, take_route, gated, finish, plan_route, plan_routes, plan_with,
}

module _ {S M : Type 0} (admit : S → Route → S × Result String (Unit {0})) (signal : Signal M) where
  plan_route_other :
      (i : ℕ) (route : Route) (s : S) (p : Planning)
      → matches route.match_rule signal ≡ false
      → plan_route admit signal i route s p ≡ (s, p)
  unfolding plan_route
  plan_route_other i route s p other = rw other

  plan_route_free :
      (i : ℕ) (route : Route) (s : S) (p : Planning)
      → matches route.match_rule signal ≡ true
      → gates_signals route ≡ false
      → plan_route admit signal i route s p ≡ (s, take_route i route p)
  unfolding plan_route
  plan_route_free i route s p match free = rw (match, free)

  plan_route_asked :
      (i : ℕ) (route : Route) (s : S) (p : Planning)
      → matches route.match_rule signal ≡ true
      → gates_signals route ≡ true
      → plan_route admit signal i route s p ≡ ((admit s route).0, gated i route (admit s route).1 p)
  unfolding plan_route
  plan_route_asked i route s p match asked = rw (match, asked)

module _ {S M : Type 0} (admit : S → Route → S × Result String (Unit {0})) (signal : Signal M) where
  -- The gate, writing down each route that it is asked about.
  abbrev pub logging : List Route × S → Route → (List Route × S) × Result String (Unit {0})
  logging (asked, s) route =
      let (s', verdict) = admit s route in ((asked ++ route ∷ [], s'), verdict)

  -- The routes to ask about: those that match and keep state on single signals.
  abbrev pub to_ask : List Route → List Route
  to_ask = keep (λ r. matches r.match_rule signal && gates_signals r)

  record Logged (i : ℕ) (routes asked : List Route) (s : S) (p : Planning) : Type 0 where
    trace : (plan_routes logging signal i routes (asked, s) p).0.0 ≡ asked ++ to_ask routes
    state :
        (plan_routes logging signal i routes (asked, s) p).0.1
        ≡ (plan_routes admit signal i routes s p).0
    plan :
        (plan_routes logging signal i routes (asked, s) p).1
        ≡ (plan_routes admit signal i routes s p).1

  plan_routes-Logged :
      (i : ℕ) (routes asked : List Route) (s : S) (p : Planning) → Logged i routes asked s p
  unfolding plan_routes
  plan_routes-Logged i [] asked s p = record {
    trace = sym (append-nil asked);
    state = refl;
    plan = refl;
  }
  plan_routes-Logged i (route ∷ rest) asked s p =
      elim (Bool-cases (matches route.match_rule signal)) [
        | inr other ↦
            let more = plan_routes-Logged (i + 1) rest asked s p in
            let a = plan_route_other logging signal i route (asked, s) p other in
            let b = plan_route_other admit signal i route s p other in
            record {
              trace = simp other more.trace;
              state = simp (a, b) more.state;
              plan = simp (a, b) more.plan;
            }
        | inl match ↦ elim (Bool-cases (gates_signals route)) [
          | inr free ↦
              let more = plan_routes-Logged (i + 1) rest asked s (take_route i route p) in
              let a = plan_route_free logging signal i route (asked, s) p match free in
              let b = plan_route_free admit signal i route s p match free in
              record {
                trace = simp (match, free) more.trace;
                state = simp (a, b) more.state;
                plan = simp (a, b) more.plan;
              }
          | inl ask ↦
              let more =
                plan_routes-Logged (i + 1) rest (asked ++ route ∷ []) (admit s route).0
                  (gated i route (admit s route).1 p) in
              let a = plan_route_asked logging signal i route (asked, s) p match ask in
              let b = plan_route_asked admit signal i route s p match ask in
              record {
                trace =
                    simp (match, ask) (more.trace ∙ append_assoc asked (route ∷ []) (to_ask rest));
                state = simp (a, b) more.state;
                plan = simp (a, b) more.plan;
              }
        ]
      ]

  -- The gate is asked about exactly the matching routes with a `dedup` or, where single signals are
  -- counted, a `rate_limit`, once each and in route order; asking about them is all that the
  -- planning does with the gate's state.
  pub plan_with-asks :
      (routes : List Route) (s : S)
      → ((plan_with logging signal routes ([], s)).0.0 ≡ to_ask routes)
        × ((plan_with logging signal routes ([], s)).1 ≡ (plan_with admit signal routes s).1)
  unfolding plan_with
  plan_with-asks routes s =
      let l = plan_routes-Logged 0 routes [] s unplanned in (l.trace, ap finish l.plan)
