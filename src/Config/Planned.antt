-- ===== src/Config/Planned.antt =====
-- Plans (crates/core/src/routing.rs) on routes that `check_routes` of crates/core/src/config.rs
-- lets through.
use ops_signal.Prelude.{
  String, true, ◌||◌, List, [], ◌∷◌, map, contains, All, Result, ok, err, ◌≡◌, sym, ◌∙◌, arith,
  Bool-cases, Option-cases, inl, inr, ◌==◌, eq_iff, subst,
}
use ops_signal.Signal.{Signal}
use ops_signal.Routing.{Route, matches, gates_signals, group_window}
use ops_signal.Routing.Plan.{providers, plan_with}
use ops_signal.Routing.Decisions.{Decision, pass, judge, decide_route, decide_routes, sends_to}
use ops_signal.Routing.Unlost.{is_idle, decisions, plan_with-refines}
use ops_signal.Config.{Origin, ProvidersConfig, provider_names, check_routes}
use ops_signal.Config.Checks.{IsUsable, check_routes-IsUsable}

-- The routes without where they stand.
abbrev pub routes_of : List (Route × Origin) → List Route
routes_of = map (λ r. r.0)

sends_to-pass :
    (n : String) (route : Route) (ds : List Decision)
    → sends_to n (pass route ∷ ds) ≡ true
    → (contains n route.providers || sends_to n ds) ≡ true
unfolding pass sends_to
sends_to-pass n route ds h = elim (Option-cases (group_window route)) [
  | inl e ↦ rw (e, pass) at h
  | inr (w, e) ↦ ground (arith, rw (e, pass) at h)
]

sends_to-judge :
    (n : String) (route : Route) (verdict : Result String (Unit {0})) (ds : List Decision)
    → sends_to n (judge route verdict ∷ ds) ≡ true
    → (contains n route.providers || sends_to n ds) ≡ true
unfolding judge sends_to
sends_to-judge n route (ok _) ds h = sends_to-pass n route ds h
sends_to-judge n route (err reason) ds h = ground (arith, h)

contains-All :
    (n : String) (names known : List String)
    → All (λ name. contains name known ≡ true) names
    → contains n names ≡ true
    → contains n known ≡ true
contains-All n [] known a h = ground arith
contains-All n (x ∷ xs) known a h = elim (Bool-cases (x == n)) [
  | inl e ↦ subst (λ m. contains m known ≡ true) ((eq_iff x n).0 e) a.0
  | inr e ↦ contains-All n xs known a.1 (rw e at h)
]

module _ {S M : Type 0} (admit : S → Route → S × Result String (Unit {0})) (signal : Signal M) where
  sends_to-decide_route :
      (n : String) (route : Route) (s : S) (ds : List Decision)
      → sends_to n ((decide_route admit signal route s).1 ∷ ds) ≡ true
      → (contains n route.providers || sends_to n ds) ≡ true
  unfolding decide_route sends_to
  sends_to-decide_route n route s ds h = elim (Bool-cases (matches route.match_rule signal)) [
    | inr e ↦ ground (arith, rw (e, decide_route) at h)
    | inl e ↦ elim (Bool-cases (gates_signals route)) [
      | inl g ↦ sends_to-judge n route (admit s route).1 ds (rw (e, g, decide_route) at h)
      | inr g ↦ sends_to-pass n route ds (rw (e, g, decide_route) at h)
    ]
  ]

  sends_to-known :
      (known : List String) (n : String) (routes : List (Route × Origin)) (s : S)
      → All (λ r. IsUsable known r.0) routes
      → sends_to n (decisions admit signal (routes_of routes) s) ≡ true
      → contains n known ≡ true
  unfolding decide_routes sends_to
  sends_to-known known n [] s u h = ground arith
  sends_to-known known n (r ∷ rest) s u h =
      let next = (decide_route admit signal r.0 s).0 in
      let k = sends_to-decide_route n r.0 s (decisions admit signal (routes_of rest) next) h in
      elim (Bool-cases (contains n r.0.providers)) [
        | inl c ↦ contains-All n r.0.providers known u.0.providers c
        | inr c ↦ sends_to-known known n rest next u.1 (rw c at k)
      ]

  -- A plan on routes that pass the check names configured providers only, the console among them,
  -- whatever the signal and the gate.
  pub plan_with-configured :
      (config : ProvidersConfig) (routes : List (Route × Origin)) (s : S) (n : String)
      → check_routes (provider_names config) routes ≡ ok tt
      → contains n (providers (plan_with admit signal (routes_of routes) s).1) ≡ true
      → contains n (provider_names config) ≡ true
  unfolding provider_names
  plan_with-configured config routes s n c h =
      let (_, _, _, names) = plan_with-refines admit signal (routes_of routes) s in
      let u = check_routes-IsUsable (provider_names config) routes c in
      elim (Bool-cases (is_idle (decisions admit signal (routes_of routes) s))) [
        | inl e ↦ ground (arith, names n, e, h)
        | inr e ↦ sends_to-known (provider_names config) n routes s u (sym (rw e at names n) ∙ h)
      ]
