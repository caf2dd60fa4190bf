-- ===== src/Routing/Unlost.antt =====
-- The whole plan, fallback included, against the decisions on the routes
-- (crates/core/src/routing.rs).
use ops_signal.Prelude.{
  ℕ, ◌+◌, String, Bool, true, false, not, ◌&&◌, ◌||◌, List, [], ◌∷◌, ◌≡◌, ◌⊎◌, refl, ◌==◌, null,
  contains, concat, all, Result, arith, Bool-cases, inl, inr, if◌then◌else◌, sym, eq_refl,
}
use ops_signal.Signal.{Signal}
use ops_signal.Routing.{Route, matches}
use ops_signal.Routing.Plan.{
  providers, Planning, unplanned, finish, plan_route, plan_routes, plan_with,
}
use ops_signal.Routing.Targets.{AllFilled}
use ops_signal.Routing.Names.{plan_routes-IsPlanning, unplanned-IsPlanning}
use ops_signal.Routing.Decisions.{
  Decision, no_match, turned_down, held, sent, decide_routes, suppressed_lines, held_lines,
  sends_to,
}
use ops_signal.Routing.Chosen.{plan_routes-decided}

-- No route that sends now lists a provider.
unfoldable pub sends_nothing : List Decision → Bool
sends_nothing [] = true
sends_nothing (sent route ∷ ds) = null route.providers && sends_nothing ds
sends_nothing (no_match ∷ ds) = sends_nothing ds
sends_nothing (turned_down _ _ ∷ ds) = sends_nothing ds
sends_nothing (held _ _ ∷ ds) = sends_nothing ds

-- No route sends, turned the signal down, or holds it.
unfoldable pub is_idle : List Decision → Bool
unfolding sends_nothing suppressed_lines held_lines
is_idle ds = sends_nothing ds && null (suppressed_lines ds) && null (held_lines 0 ds)

sends_nothing-sends_to :
    (ds : List Decision) (n : String) → sends_nothing ds ≡ true → sends_to n ds ≡ false
unfolding sends_nothing sends_to
sends_nothing-sends_to [] n h = refl
sends_nothing-sends_to (sent route ∷ ds) n h =
    ground (arith, sends_nothing-sends_to ds n, null-contains n route.providers)
  where
    null-contains :
        (n : String) (names : List String) → null names ≡ true → contains n names ≡ false
    null-contains n [] e = refl
    null-contains n (x ∷ xs) e = cc
sends_nothing-sends_to (no_match ∷ ds) n h = sends_nothing-sends_to ds n h
sends_nothing-sends_to (turned_down _ _ ∷ ds) n h = sends_nothing-sends_to ds n h
sends_nothing-sends_to (held _ _ ∷ ds) n h = sends_nothing-sends_to ds n h

sends_to_some :
    (ds : List Decision) → sends_nothing ds ≡ false → (n : String) × (sends_to n ds ≡ true)
unfolding sends_nothing sends_to
sends_to_some [] h = cc
sends_to_some (sent route ∷ ds) h = go route.providers refl (sends_to_some ds)
  where
    go :
        (names : List String)
        → route.providers ≡ names
        → (sends_nothing ds ≡ false → (n : String) × (sends_to n ds ≡ true))
        → (n : String) × ((contains n route.providers || sends_to n ds) ≡ true)
    go [] e ih = let (n, t) = ih (rw e at h) in (n, ground arith)
    go (x ∷ xs) e ih = (x, rw e (ground (arith, eq_refl x)))
sends_to_some (no_match ∷ ds) h = sends_to_some ds h
sends_to_some (turned_down _ _ ∷ ds) h = sends_to_some ds h
sends_to_some (held _ _ ∷ ds) h = sends_to_some ds h

null-targets :
    (ts : List (List String)) (ds : List Decision)
    → AllFilled ts
    → ((n : String) → contains n (concat ts) ≡ sends_to n ds)
    → null ts ≡ sends_nothing ds
null-targets [] ds f h = elim (Bool-cases (sends_nothing ds)) [
  | inl e ↦ sym e
  | inr e ↦ let (n, t) = sends_to_some ds e in cc (h n)
]
null-targets ([] ∷ ts) ds f h = cc
null-targets ((x ∷ xs) ∷ ts) ds f h = elim (Bool-cases (sends_nothing ds)) [
  | inl e ↦ ground (arith, h x, sends_nothing-sends_to ds x, eq_refl x)
  | inr e ↦ sym e
]

module _ {S M : Type 0} (admit : S → Route → S × Result String (Unit {0})) (signal : Signal M) where
  -- The decisions on the routes, in route order, the gate's state passed on.
  abbrev pub decisions : List Route → S → List Decision
  decisions routes s = (decide_routes admit signal routes s).1

  pub null-planned :
      (routes : List Route) (s : S)
      → let p = (plan_routes admit signal 0 routes s unplanned).1 in
        (null p.targets && null p.suppressed && null p.grouped) ≡ is_idle (decisions routes s)
  unfolding is_idle
  null-planned routes s =
      let (_, t, g, names) = plan_routes-decided admit signal routes s in
      let v = plan_routes-IsPlanning admit signal 0 routes s unplanned unplanned-IsPlanning in
      rw (t, g, null-targets _ (decisions routes s) v.filled names)

  -- A plan is what the decisions on the single routes ask for: its suppressed and grouped lines are
  -- theirs, in route order, the gate is left in the state that they leave it in, and a provider is
  -- in the plan exactly if a route that sends now lists it, or if it is the console and no
  -- route sends to anyone, turned the signal down or holds it.
  pub plan_with-refines :
      (routes : List Route) (s : S)
      → let result = (plan_with admit signal routes s).1 in
        ((plan_with admit signal routes s).0 ≡ (decide_routes admit signal routes s).0)
        × (result.suppressed ≡ suppressed_lines (decisions routes s))
        × (result.grouped ≡ held_lines 0 (decisions routes s))
        × ((n : String)
            → contains n (providers result) ≡ (
                if is_idle (decisions routes s)
                then "console" == n
                else sends_to n (decisions routes s)))
  unfolding plan_with finish providers
  plan_with-refines routes s =
      let (state, t, g, names) = plan_routes-decided admit signal routes s in
      (state, t, g, λ n. rw null-planned (idle n (is_idle (decisions routes s)) _ (names n)))
    where
      idle :
          (n : String) (b : Bool) (ts : List (List String)) {x : Bool}
          → contains n (concat ts) ≡ x
          → contains n (concat (if b then ("console" ∷ []) ∷ [] else ts))
            ≡ (if b then "console" == n else x)
      idle n true ts e = ground arith
      idle n false ts e = e

  unmatched-plan_routes :
      (i : ℕ) (routes : List Route) (s : S) (p : Planning)
      → all (λ r. not (matches r.match_rule signal)) routes ≡ true
      → plan_routes admit signal i routes s p ≡ (s, p)
  unfolding plan_routes plan_route
  unmatched-plan_routes i [] s p h = refl
  unmatched-plan_routes i (route ∷ rest) s p h =
      elim (Bool-cases (matches route.match_rule signal)) [
        | inl match ↦ absurd (cc (rw match at h))
        | inr other ↦ rw other (unmatched-plan_routes (i + 1) rest s p (rw other at h))
      ]

  -- A plan with no target at all says why: a route turned the signal down or holds it. If no route
  -- matches, the plan is the console and nothing else, and the gate was not asked.
  pub plan_with_unlost :
      (routes : List Route) (s : S)
      → let result = (plan_with admit signal routes s).1 in
        (null result.targets ≡ true
          → (null result.suppressed ≡ false) ⊎ (null result.grouped ≡ false))
        × (all (λ r. not (matches r.match_rule signal)) routes ≡ true
            → plan_with admit signal routes s
              ≡ (s, record { targets = ("console" ∷ []) ∷ []; suppressed = []; grouped = [] }))
  unfolding plan_with finish
  plan_with_unlost routes s = (ground arith, λ h. rw (unmatched-plan_routes 0 routes s unplanned h))
