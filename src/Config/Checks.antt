-- ===== src/Config/Checks.antt =====
-- What `check_routes` of crates/core/src/config.rs lets through.
use ops_signal.Prelude.{
  String, Bool, true, false, not, none, List, [], ◌∷◌, null, find, contains, All, Result, ok, err,
  ◌≡◌, ◌≢◌, inl, inr, refl, arith, Bool-cases, Option-cases,
}
use ops_signal.Signal.{SignalError}
use ops_signal.Routing.{Route}
use ops_signal.Groups.Fields.{is_group_field}
use ops_signal.Config.{
  Origin, place, is_zero, is_empty_limit, fields_of, bad_field, unknown_provider, check_providers,
  check_fields, check_route, and_next, check_routes,
}

-- A route that can be planned and throttled.
pub record IsUsable (known : List String) (route : Route) : Type 0 where
  pub sends : route.providers ≢ []
  pub dedup : is_zero route.dedup ≡ false
  pub limit : is_empty_limit route.rate_limit ≡ false
  pub wait : is_zero route.group_wait ≡ false
  pub fields : All (λ f. is_group_field f ≡ true) (fields_of route.group_by)
  pub providers : All (λ name. contains name known ≡ true) route.providers

find-none {ℓ} :
    {A : Type ℓ} (p : A → Bool) (xs : List A)
    → find (λ x. not (p x)) xs ≡ none
    → All (λ x. p x ≡ true) xs
find-none p [] h = tt
find-none p (x ∷ xs) h = elim (Bool-cases (p x)) [
  | inl e ↦ (e, find-none p xs (rw e at h))
  | inr e ↦ ground (arith, rw e at h)
]

null-false {ℓ} : {A : Type ℓ} (xs : List A) → null xs ≡ false → xs ≢ []
null-false xs h e = ground (arith, h, e)

check_route-IsUsable :
    (known : List String) (at : String) (route : Route)
    → check_route known at route ≡ ok tt
    → IsUsable known route
unfolding check_route check_fields check_providers
check_route-IsUsable known at route h = elim (Option-cases (bad_field route)) [
  | inr (f, e) ↦ ground (arith, e)
  | inl e ↦ elim (Option-cases (unknown_provider known route)) [
    | inr (n, k) ↦ ground (arith, e, k)
    | inl k ↦ record {
      sends = null-false route.providers (ground (arith, e, k));
      dedup = ground (arith, e, k);
      limit = ground (arith, e, k);
      wait = ground (arith, e, k);
      fields = find-none is_group_field (fields_of route.group_by) e;
      providers = find-none (λ name. contains name known) route.providers k;
    }
  ]
]

and_next-ok :
    (r next : Result SignalError (Unit {0}))
    → and_next r next ≡ ok tt
    → (r ≡ ok tt) × (next ≡ ok tt)
and_next-ok (err e) next h = ground arith
and_next-ok (ok _) next h = (refl, h)

-- Routes that pass the check list providers, all of them configured, and group by fields that a
-- signal has; no window of theirs is 0s and no limit is 0.
pub check_routes-IsUsable :
    (known : List String) (routes : List (Route × Origin))
    → check_routes known routes ≡ ok tt
    → All (λ r. IsUsable known r.0) routes
unfolding check_routes
check_routes-IsUsable known [] h = tt
check_routes-IsUsable known ((route, origin) ∷ rest) h =
    let (x, y) = and_next-ok (check_route known (place origin) route) (check_routes known rest) h in
    (check_route-IsUsable known (place origin) route x, check_routes-IsUsable known rest y)
