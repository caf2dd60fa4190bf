-- ===== src/Routing/OneMode.antt =====
-- The targets of a plan whose routes all have one delivery mode (crates/core/src/routing.rs).
use ops_signal.Prelude.{
  ℕ, ◌+◌, String, true, List, [], ◌∷◌, ◌++◌, ◌≡◌, refl, all, Result, Bool-cases, inl, inr,
  if◌then◌else◌, sym, ◌∙◌, ap, and-eq-true,
}
use ops_signal.Signal.{Signal}
use ops_signal.Routing.{Route, DeliveryMode, failover, fanout, matches, gates_signals, push_new}
use ops_signal.Routing.Plan.{Planning, unplanned, finish, plan_route, plan_routes, plan_with}
use ops_signal.Routing.Decisions.{decide_route, decide_routes}
use ops_signal.Routing.Chosen.{plan_route-state}
use ops_signal.Routing.Unlost.{is_idle, decisions, null-planned}
use ops_signal.Routing.Modes.{
  chain_of, singles, Shaped, Fills, sent_names, push_new-append, sent_names-cons, Fills-lines,
  take_route-Fills, gated-Fills, same_mode, same_mode-eq,
}

Fills-append :
    (mode : DeliveryMode) (xs ys : List String) {p q r : Planning}
    → Fills mode xs p q
    → Fills mode ys q r
    → Fills mode (xs ++ ys) p r
Fills-append mode xs ys {p} one more = record {
  shaped = more.shaped;
  seen = more.seen ∙ ap (λ s. push_new s ys) one.seen ∙ sym (push_new-append xs ys p.seen);
}

-- Names laid out in targets by a mode.
abbrev pub layout : DeliveryMode → List String → List (List String)
layout failover = chain_of
layout fanout = singles

layout-Shaped :
    (mode : DeliveryMode) (p : Planning) → Shaped mode p → p.targets ≡ layout mode p.seen
layout-Shaped failover p (t, s) = t
layout-Shaped fanout p t = t

start : (mode : DeliveryMode) → Shaped mode unplanned
start failover = (refl, refl)
start fanout = refl

module _ {S M : Type 0} (admit : S → Route → S × Result String (Unit {0})) (signal : Signal M)
    (mode : DeliveryMode) where
  plan_route-Fills :
      (i : ℕ) (route : Route) (s : S) (p : Planning)
      → route.mode ≡ mode
      → Shaped mode p
      → Fills mode
          (sent_names ((decide_route admit signal route s).1 ∷ []))
          p
          (plan_route admit signal i route s p).1
  unfolding plan_route decide_route
  plan_route-Fills i route s p m h = elim (Bool-cases (matches route.match_rule signal)) [
    | inr other ↦ rw other (unfold sent_names in Fills-lines mode p p.suppressed p.grouped h)
    | inl match ↦ elim (Bool-cases (gates_signals route)) [
      | inl asked ↦ rw (match, asked) (gated-Fills mode i route (admit s route).1 p m h)
      | inr free ↦ rw (match, free) (take_route-Fills mode i route p m h)
    ]
  ]

  plan_routes-Fills :
      (i : ℕ) (routes : List Route) (s : S) (p : Planning)
      → all (λ r. same_mode r.mode mode) routes ≡ true
      → Shaped mode p
      → Fills mode
          (sent_names (decide_routes admit signal routes s).1)
          p
          (plan_routes admit signal i routes s p).1
  unfolding plan_routes decide_routes
  plan_routes-Fills i [] s p m h = unfold sent_names in Fills-lines mode p p.suppressed p.grouped h
  plan_routes-Fills i (route ∷ rest) s p m h =
      let (m₁, m₂) = and-eq-true (same_mode route.mode mode) _ m in
      let one = plan_route-Fills i route s p (same_mode-eq route.mode mode m₁) h in
      let (s', p') = plan_route admit signal i route s p in
      rw (sent_names-cons, ← plan_route-state admit signal i route s p)
        (Fills-append mode _ _ one (plan_routes-Fills (i + 1) rest s' p' m₂ one.shaped))

  -- With one mode for all routes, the targets are made of the names that the routes which send now
  -- list, each at its first place, in route order: one chain of them for failover, one target for
  -- each for fanout. With no such name, no route turned down and none held, it is the console.
  pub plan_with-one_mode :
      (routes : List Route) (s : S)
      → all (λ r. same_mode r.mode mode) routes ≡ true
      → (plan_with admit signal routes s).1.targets ≡ (
          if is_idle (decisions admit signal routes s)
          then ("console" ∷ []) ∷ []
          else layout mode (push_new [] (sent_names (decisions admit signal routes s))))
  unfolding plan_with finish
  plan_with-one_mode routes s m =
      let f = plan_routes-Fills 0 routes s unplanned m (start mode) in
      rw null-planned (
        ap (λ ts. if is_idle (decisions admit signal routes s) then ("console" ∷ []) ∷ [] else ts)
          (layout-Shaped mode _ f.shaped ∙ ap (layout mode) f.seen))
