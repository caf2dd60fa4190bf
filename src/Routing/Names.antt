-- ===== src/Routing/Names.antt =====
-- The providers of a plan: each once, and no empty target (crates/core/src/routing.rs).
use ops_signal.Prelude.{
  ℕ, suc, ◌+◌, ◌<◌, String, false, ◌&&◌, Option, none, some, List, [], ◌∷◌, ◌++◌, ◌≡◌, refl, null,
  length, contains, concat, IsUnique, contains-concat_one, IsUnique-concat_one, Result, ok, err,
  arith, Bool-cases, Option-cases, inl, inr, ◌∙◌, length-append,
}
use ops_signal.Signal.{Signal}
use ops_signal.Routing.{Route, DeliveryMode, failover, fanout, group_window, matches, gates_signals}
use ops_signal.Routing.Plan.{
  providers, Planning, unplanned, push_at, place, add_provider, add_providers, take_route, gated,
  finish, plan_route, plan_routes, plan_with,
}
use ops_signal.Routing.Targets.{
  AllFilled, AllFilled-push_at, AllFilled-concat_one, IsUnique-push_at, contains-push_at,
  length-push_at, concat-concat_one,
}

-- What holds between two rounds of the loop.
pub record IsPlanning (p : Planning) : Type 0 where
  pub names : (n : String) → contains n (concat p.targets) ≡ contains n p.seen
  pub unique : IsUnique (concat p.targets)
  pub filled : AllFilled p.targets
  pub in_bounds : (i : ℕ) → p.shared ≡ some i → i < length p.targets

-- A new target of one provider.
new_target-IsPlanning :
    (name : String) (p : Planning) (shared : Option ℕ)
    → contains name p.seen ≡ false
    → ((i : ℕ) → shared ≡ some i → i < suc (length p.targets))
    → IsPlanning p
    → IsPlanning (record p {
      seen = p.seen ++ name ∷ [];
      shared = shared;
      targets = p.targets ++ (name ∷ []) ∷ [];
    })
new_target-IsPlanning name p shared new bound v = record {
  names = λ n. ground (
    arith,
    concat-concat_one p.targets name,
    contains-concat_one n (concat p.targets) name,
    contains-concat_one n p.seen name,
    v.names n,
  );
  unique =
      rw concat-concat_one
        (IsUnique-concat_one (concat p.targets) name (v.names name ∙ new) v.unique);
  filled = AllFilled-concat_one name p.targets v.filled;
  in_bounds = λ i e. omega (arith, length-append p.targets ((name ∷ []) ∷ []), bound i e);
}

shared_target-IsPlanning :
    (name : String) (p : Planning) (i : ℕ)
    → p.shared ≡ some i
    → contains name p.seen ≡ false
    → IsPlanning p
    → IsPlanning (record p { seen = p.seen ++ name ∷ []; targets = push_at p.targets i name })
shared_target-IsPlanning name p i e new v = record {
  names = λ n. ground (
    arith,
    contains-push_at n name p.targets i (v.in_bounds i e),
    contains-concat_one n p.seen name,
    v.names n,
  );
  unique = IsUnique-push_at name p.targets i (v.in_bounds i e) (v.names name ∙ new) v.unique;
  filled = AllFilled-push_at name p.targets i v.filled;
  in_bounds = λ j h. rw length-push_at (v.in_bounds j h);
}

place-IsPlanning :
    (mode : DeliveryMode) (shared : Option ℕ) (name : String) (p : Planning)
    → p.shared ≡ shared
    → contains name p.seen ≡ false
    → IsPlanning p
    → IsPlanning (place mode shared name (record p { seen = p.seen ++ name ∷ [] }))
unfolding place
place-IsPlanning fanout shared name p e new v =
    new_target-IsPlanning name p p.shared new (λ i h. omega (arith, v.in_bounds i h)) v
place-IsPlanning failover (some i) name p e new v = shared_target-IsPlanning name p i e new v
place-IsPlanning failover none name p e new v =
    new_target-IsPlanning name p (some (length p.targets)) new (λ i h. ground arith) v

add_provider-IsPlanning :
    (mode : DeliveryMode) (name : String) (p : Planning)
    → IsPlanning p
    → IsPlanning (add_provider mode name p)
unfolding add_provider
add_provider-IsPlanning mode name p v = elim (Bool-cases (contains name p.seen)) [
  | inl old ↦ rw old v
  | inr new ↦ rw new (place-IsPlanning mode p.shared name p refl new v)
]

add_providers-IsPlanning :
    (mode : DeliveryMode) (names : List String) (p : Planning)
    → IsPlanning p
    → IsPlanning (add_providers mode names p)
unfolding add_providers
add_providers-IsPlanning mode [] p v = v
add_providers-IsPlanning mode (name ∷ rest) p v =
    add_providers-IsPlanning mode rest (add_provider mode name p)
      (add_provider-IsPlanning mode name p v)

take_route-IsPlanning :
    (i : ℕ) (route : Route) (p : Planning) → IsPlanning p → IsPlanning (take_route i route p)
unfolding take_route
take_route-IsPlanning i route p v = elim (Option-cases (group_window route)) [
  | inl now ↦ rw (now, take_route) (add_providers-IsPlanning route.mode route.providers p v)
  | inr (wait, held) ↦
      rw (held, take_route)
        (record { names = v.names; unique = v.unique; filled = v.filled; in_bounds = v.in_bounds })
]

gated-IsPlanning :
    (i : ℕ) (route : Route) (verdict : Result String (Unit {0})) (p : Planning)
    → IsPlanning p
    → IsPlanning (gated i route verdict p)
unfolding gated
gated-IsPlanning i route (ok _) p v = take_route-IsPlanning i route p v
gated-IsPlanning i route (err reason) p v = record {
  names = v.names;
  unique = v.unique;
  filled = v.filled;
  in_bounds = v.in_bounds;
}

finish-IsUnique :
    (p : Planning)
    → IsPlanning p
    → IsUnique (concat (finish p).targets) × AllFilled (finish p).targets
unfolding finish
finish-IsUnique p v = elim (Bool-cases (null p.targets && null p.suppressed && null p.grouped)) [
  | inl nothing ↦ rw nothing ((refl, tt), refl)
  | inr some_plan ↦ rw some_plan (v.unique, v.filled)
]

pub unplanned-IsPlanning : IsPlanning unplanned
unplanned-IsPlanning = record {
  names = λ n. refl;
  unique = tt;
  filled = refl;
  in_bounds = λ i e. cc;
}

module _ {S M : Type 0} (admit : S → Route → S × Result String (Unit {0})) (signal : Signal M) where
  plan_route-IsPlanning :
      (i : ℕ) (route : Route) (s : S) (p : Planning)
      → IsPlanning p
      → IsPlanning (plan_route admit signal i route s p).1
  unfolding plan_route
  plan_route-IsPlanning i route s p v = elim (Bool-cases (matches route.match_rule signal)) [
    | inr no_match ↦ rw no_match v
    | inl match ↦ rw match (elim (Bool-cases (gates_signals route)) [
      | inl asked ↦ rw asked (gated-IsPlanning i route (admit s route).1 p v)
      | inr free ↦ rw free (take_route-IsPlanning i route p v)
    ])
  ]

  pub plan_routes-IsPlanning :
      (i : ℕ) (routes : List Route) (s : S) (p : Planning)
      → IsPlanning p
      → IsPlanning (plan_routes admit signal i routes s p).1
  unfolding plan_routes
  plan_routes-IsPlanning i [] s p v = v
  plan_routes-IsPlanning i (route ∷ rest) s p v =
      let (s', p') = plan_route admit signal i route s p in
      plan_routes-IsPlanning (i + 1) rest s' p' (plan_route-IsPlanning i route s p v)

  -- Whatever the gate does, a plan names no provider twice, in one target or in two, and has no
  -- target without a provider.
  pub plan_with-IsUnique :
      (routes : List Route) (s : S)
      → IsUnique (providers (plan_with admit signal routes s).1)
        × AllFilled (plan_with admit signal routes s).1.targets
  unfolding plan_with providers
  plan_with-IsUnique routes s =
      finish-IsUnique (plan_routes admit signal 0 routes s unplanned).1
        (plan_routes-IsPlanning 0 routes s unplanned unplanned-IsPlanning)
