-- ===== src/Routing/Chosen.antt =====
-- `plan_with` refines the decisions on the single routes (crates/core/src/routing.rs).
use ops_signal.Prelude.{
  ℕ, ◌+◌, String, ◌||◌, Option, none, some, List, [], ◌∷◌, ◌++◌, ◌≡◌, refl, eq_iff, contains,
  concat, contains-concat_one, Result, ok, err, arith, append_assoc, append-nil, Bool-cases,
  Option-cases, inl, inr, sym, ap, ◌∙◌,
}
use ops_signal.Signal.{Signal}
use ops_signal.Routing.{Route, DeliveryMode, failover, fanout, group_window, matches, gates_signals}
use ops_signal.Routing.Plan.{
  Planning, unplanned, place, add_provider, add_providers, take_route, gated, plan_route,
  plan_routes,
}
use ops_signal.Routing.Names.{plan_routes-IsPlanning, unplanned-IsPlanning}
use ops_signal.Routing.Decisions.{
  Decision, no_match, turned_down, held, sent, pass, judge, decide_route, decide_routes,
  suppressed_lines, held_lines, sends_to,
}

-- `q` comes from `p` by the decisions `ds`, on the routes from index `i`.
record Extends (i : ℕ) (ds : List Decision) (p q : Planning) : Type 0 where
  seen : (n : String) → contains n q.seen ≡ (contains n p.seen || sends_to n ds)
  suppressed : q.suppressed ≡ p.suppressed ++ suppressed_lines ds
  grouped : q.grouped ≡ p.grouped ++ held_lines i ds

seen-place :
    (mode : DeliveryMode) (shared : Option ℕ) (name : String) (p : Planning)
    → ((place mode shared name p).seen ≡ p.seen)
      × ((place mode shared name p).suppressed ≡ p.suppressed)
      × ((place mode shared name p).grouped ≡ p.grouped)
unfolding place
seen-place fanout shared name p = (refl, refl, refl)
seen-place failover (some i) name p = (refl, refl, refl)
seen-place failover none name p = (refl, refl, refl)

record Adds (names : List String) (p q : Planning) : Type 0 where
  seen : (n : String) → contains n q.seen ≡ (contains n p.seen || contains n names)
  suppressed : q.suppressed ≡ p.suppressed
  grouped : q.grouped ≡ p.grouped

add_provider-Adds :
    (mode : DeliveryMode) (name : String) (p : Planning)
    → Adds (name ∷ []) p (add_provider mode name p)
unfolding add_provider
add_provider-Adds mode name p = elim (Bool-cases (contains name p.seen)) [
  | inl old ↦
      rw old
        (record { seen = λ n. ground (arith, eq_iff name n); suppressed = refl; grouped = refl })
  | inr new ↦ rw new (
      let (s, t, g) = seen-place mode p.shared name (record p { seen = p.seen ++ name ∷ [] }) in
      record {
        seen = λ n. ap (contains n) s ∙ (ground (arith, contains-concat_one n p.seen name));
        suppressed = t;
        grouped = g;
      })
]

add_providers-Adds :
    (mode : DeliveryMode) (names : List String) (p : Planning)
    → Adds names p (add_providers mode names p)
unfolding add_providers
add_providers-Adds mode [] p = record {
  seen = λ n. ground arith;
  suppressed = refl;
  grouped = refl;
}
add_providers-Adds mode (name ∷ rest) p =
    let one = add_provider-Adds mode name p in
    let more = add_providers-Adds mode rest (add_provider mode name p) in
    record {
      seen = λ n. ground (arith, one.seen n, more.seen n);
      suppressed = more.suppressed ∙ one.suppressed;
      grouped = more.grouped ∙ one.grouped;
    }

take_route-Extends :
    (i : ℕ) (route : Route) (p : Planning) → Extends i (pass route ∷ []) p (take_route i route p)
unfolding take_route pass sends_to suppressed_lines held_lines
take_route-Extends i route p = elim (Option-cases (group_window route)) [
  | inl now ↦
      rw (now, take_route, pass)
        (let a = add_providers-Adds route.mode route.providers p in
          record {
            seen = λ n. ground (arith, a.seen n);
            suppressed = a.suppressed ∙ sym (append-nil p.suppressed);
            grouped = a.grouped ∙ sym (append-nil p.grouped);
          })
  | inr (wait, hold) ↦
      rw (hold, take_route, pass)
        (record {
          seen = λ n. ground arith;
          suppressed = sym (append-nil p.suppressed);
          grouped = refl;
        })
]

gated-Extends :
    (i : ℕ) (route : Route) (verdict : Result String (Unit {0})) (p : Planning)
    → Extends i (judge route verdict ∷ []) p (gated i route verdict p)
unfolding gated judge sends_to suppressed_lines held_lines
gated-Extends i route (ok _) p = take_route-Extends i route p
gated-Extends i route (err reason) p = record {
  seen = λ n. ground arith;
  suppressed = refl;
  grouped = sym (append-nil p.grouped);
}

sends_to-cons :
    (n : String) (d : Decision) (ds : List Decision)
    → sends_to n (d ∷ ds) ≡ (sends_to n (d ∷ []) || sends_to n ds)
unfolding sends_to
sends_to-cons n no_match ds = refl
sends_to-cons n (turned_down _ _) ds = refl
sends_to-cons n (held _ _) ds = refl
sends_to-cons n (sent route) ds = ground arith

suppressed_lines-cons :
    (d : Decision) (ds : List Decision)
    → suppressed_lines (d ∷ ds) ≡ suppressed_lines (d ∷ []) ++ suppressed_lines ds
unfolding suppressed_lines
suppressed_lines-cons no_match ds = refl
suppressed_lines-cons (turned_down _ _) ds = refl
suppressed_lines-cons (held _ _) ds = refl
suppressed_lines-cons (sent route) ds = refl

held_lines-cons :
    (i : ℕ) (d : Decision) (ds : List Decision)
    → held_lines i (d ∷ ds) ≡ held_lines i (d ∷ []) ++ held_lines (i + 1) ds
unfolding held_lines
held_lines-cons i no_match ds = refl
held_lines-cons i (turned_down _ _) ds = refl
held_lines-cons i (held _ _) ds = refl
held_lines-cons i (sent route) ds = refl

Extends-nil : (i : ℕ) (p : Planning) → Extends i [] p p
unfolding sends_to suppressed_lines held_lines
Extends-nil i p = record {
  seen = λ n. ground arith;
  suppressed = sym (append-nil p.suppressed);
  grouped = sym (append-nil p.grouped);
}

Extends-no_match : (i : ℕ) (p : Planning) → Extends i (no_match ∷ []) p p
unfolding sends_to suppressed_lines held_lines
Extends-no_match i p = record {
  seen = λ n. ground arith;
  suppressed = sym (append-nil p.suppressed);
  grouped = sym (append-nil p.grouped);
}

Extends-cons :
    (i : ℕ) (d : Decision) (ds : List Decision) {p q r : Planning}
    → Extends i (d ∷ []) p q
    → Extends (i + 1) ds q r
    → Extends i (d ∷ ds) p r
Extends-cons i d ds {p} {q} {r} one more = record {
  seen = λ n. ground (arith, one.seen n, more.seen n, sends_to-cons n d ds);
  suppressed = simp (suppressed_lines-cons d ds, ← append_assoc, more.suppressed, one.suppressed);
  grouped = simp (held_lines-cons i d ds, ← append_assoc, more.grouped, one.grouped);
}

module _ {S M : Type 0} (admit : S → Route → S × Result String (Unit {0})) (signal : Signal M) where
  -- One round of the loop carries out the decision on its route.
  record Follows (i : ℕ) (route : Route) (s : S) (p : Planning) : Type 0 where
    state : (plan_route admit signal i route s p).0 ≡ (decide_route admit signal route s).0
    plan :
        Extends i
          ((decide_route admit signal route s).1 ∷ [])
          p
          (plan_route admit signal i route s p).1

  plan_route-Follows : (i : ℕ) (route : Route) (s : S) (p : Planning) → Follows i route s p
  unfolding plan_route decide_route
  plan_route-Follows i route s p = elim (Bool-cases (matches route.match_rule signal)) [
    | inr other ↦ record { state = rw other; plan = rw other (Extends-no_match i p) }
    | inl match ↦ elim (Bool-cases (gates_signals route)) [
      | inl asked ↦ record {
        state = rw (match, asked);
        plan = rw (match, asked) (gated-Extends i route (admit s route).1 p);
      }
      | inr free ↦ record {
        state = rw (match, free);
        plan = rw (match, free) (take_route-Extends i route p);
      }
    ]
  ]

  -- The gate is left in the state that the decision leaves it in.
  pub plan_route-state :
      (i : ℕ) (route : Route) (s : S) (p : Planning)
      → (plan_route admit signal i route s p).0 ≡ (decide_route admit signal route s).0
  plan_route-state i route s p = (plan_route-Follows i route s p).state

  record FollowsAll (i : ℕ) (routes : List Route) (s : S) (p : Planning) : Type 0 where
    state : (plan_routes admit signal i routes s p).0 ≡ (decide_routes admit signal routes s).0
    plan :
        Extends i
          (decide_routes admit signal routes s).1
          p
          (plan_routes admit signal i routes s p).1

  plan_routes-FollowsAll :
      (i : ℕ) (routes : List Route) (s : S) (p : Planning) → FollowsAll i routes s p
  unfolding plan_routes decide_routes
  plan_routes-FollowsAll i [] s p = record { state = refl; plan = Extends-nil i p }
  plan_routes-FollowsAll i (route ∷ rest) s p =
      let one = plan_route-Follows i route s p in
      let (s', p') = plan_route admit signal i route s p in
      let more = plan_routes-FollowsAll (i + 1) rest s' p' in
      record {
        state = rw (← one.state) more.state;
        plan = rw (← one.state) (Extends-cons i _ _ one.plan more.plan);
      }

  -- What the loop leaves is what the decisions ask for.
  pub plan_routes-decided :
      (routes : List Route) (s : S)
      → let p = (plan_routes admit signal 0 routes s unplanned).1 in
        let ds = (decide_routes admit signal routes s).1 in
        ((plan_routes admit signal 0 routes s unplanned).0
          ≡ (decide_routes admit signal routes s).0)
        × (p.suppressed ≡ suppressed_lines ds)
        × (p.grouped ≡ held_lines 0 ds)
        × ((n : String) → contains n (concat p.targets) ≡ sends_to n ds)
  plan_routes-decided routes s =
      let f = plan_routes-FollowsAll 0 routes s unplanned in
      let v = plan_routes-IsPlanning admit signal 0 routes s unplanned unplanned-IsPlanning in
      (f.state, f.plan.suppressed, f.plan.grouped, λ n. v.names n ∙ f.plan.seen n)
