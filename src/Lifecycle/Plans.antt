-- ===== src/Lifecycle/Plans.antt =====
-- Where an `acknowledge` or `resolve` goes (`lifecycle_plan` of crates/core/src/lib.rs).
use ops_signal.Prelude.{
  String, Bool, true, false, not, ◌&&◌, ◌||◌, List, [], ◌∷◌, ◌++◌, ◌≡◌, refl, ◌==◌, any, keep, null,
  contains, concat, is_some, eq_iff, if◌then◌else◌, arith, ap, Bool-cases, inl, inr, ◌∙◌,
  contains-concat_one, length,
}
use ops_signal.Signal.{Signal}
use ops_signal.Routing.{
  Route, push_new, matches_any_severity, visit_any_severity, providers_any_severity,
}
use ops_signal.Routing.Plan.{providers}
use ops_signal.Delivery.{Registry}
use ops_signal.Lifecycle.{
  OpenAlert, singles, holder_names, by_key, lifecycle_targets, lifecycle_plan,
}

concat-singles : (names : List String) → concat (singles names) ≡ names
concat-singles [] = refl
concat-singles (n ∷ ns) = ap (λ xs. n ∷ xs) (concat-singles ns)

null-singles : (names : List String) → null (singles names) ≡ null names
null-singles [] = refl
null-singles (_ ∷ _) = refl

contains-keep_name :
    (p : String → Bool) (name : String) (names : List String)
    → contains name (keep p names) ≡ (contains name names && p name)
contains-keep_name p name [] = refl
contains-keep_name p name (n ∷ ns) = elim (Bool-cases (n == name)) [
  | inl e ↦ ground (arith, contains-keep_name p name ns, ap p ((eq_iff n name).0 e))
  | inr e ↦ ground (arith, contains-keep_name p name ns)
]

contains-push_new :
    (name : String) (names new : List String)
    → contains name (push_new names new) ≡ (contains name names || contains name new)
unfolding push_new
contains-push_new name names [] = ground arith
contains-push_new name names (n ∷ ns) = elim (Bool-cases (contains n names)) [
  | inl e ↦ rw e (contains-push_new name names ns ∙ ground (arith, eq_iff n name))
  | inr e ↦ rw e (
      contains-push_new name (names ++ n ∷ []) ns
      ∙ ground (arith, contains-concat_one name names n))
]

or_assoc : (a b c : Bool) → ((a || b) || c) ≡ (a || ((true && b) || c))
or_assoc a b c = ground arith

-- A route names the provider and matches the signal, whatever its severity.
abbrev pub names_any_severity : {M : Type 0} → String → Signal M → List Route → Bool
names_any_severity name signal =
    any (λ r. matches_any_severity r.match_rule signal && contains name r.providers)

contains-visit_any_severity :
    {M : Type 0} (name : String) (signal : Signal M) (names : List String) (routes : List Route)
    → contains name (visit_any_severity signal names routes)
      ≡ (contains name names || names_any_severity name signal routes)
unfolding visit_any_severity
contains-visit_any_severity name signal names [] = ground arith
contains-visit_any_severity name signal names (r ∷ rs) =
    elim (Bool-cases (matches_any_severity r.match_rule signal)) [
      | inl e ↦ rw e (
          contains-visit_any_severity name signal (push_new names r.providers) rs
          ∙ ap (λ b. b || names_any_severity name signal rs)
              (contains-push_new name names r.providers)
          ∙ or_assoc (contains name names) _ _)
      | inr e ↦ rw e (contains-visit_any_severity name signal names rs)
    ]

contains-providers_any_severity :
    {M : Type 0} (name : String) (signal : Signal M) (routes : List Route)
    → contains name (providers_any_severity routes signal) ≡ names_any_severity name signal routes
unfolding providers_any_severity
contains-providers_any_severity name signal routes =
    contains-visit_any_severity name signal [] routes

-- Some provider that holds the alert is registered.
abbrev pub is_reachable : Registry → List OpenAlert → Bool
is_reachable registry = any (λ a. is_some (registry a.provider))

null-held :
    (registry : Registry) (alerts : List OpenAlert)
    → null (singles (holder_names (keep (λ a. is_some (registry a.provider)) alerts)))
      ≡ not (is_reachable registry alerts)
null-held registry [] = refl
null-held registry (a ∷ as') = ground (arith, null-held registry as')

contains-held :
    (registry : Registry) (name : String) (alerts : List OpenAlert)
    → contains name (holder_names (keep (λ a. is_some (registry a.provider)) alerts))
      ≡ (contains name (holder_names alerts) && is_some (registry name))
contains-held registry name [] = refl
contains-held registry name (a ∷ as') = elim (Bool-cases (a.provider == name)) [
  | inl e ↦ ground (
    arith,
    contains-held registry name as',
    ap (λ n. is_some (registry n)) ((eq_iff a.provider name).0 e),
  )
  | inr e ↦ ground (arith, contains-held registry name as')
]

one_reason : (b : Bool) (s : String) → length (if b then s ∷ [] else []) ≡ (if b then 1 else 0)
one_reason true s = refl
one_reason false s = refl

-- An `acknowledge` or `resolve` goes to the registered providers that hold the alert, if there is
-- one; else to the registered ones that resolve by key and that a route names which matches the
-- signal whatever its severity. Each is a target of its own, nothing is held for a digest, and the
-- plan says why, in one line, just when it has no target.
pub lifecycle_plan_goes :
    {M : Type 0} (registry : Registry) (routes : List Route) (signal : Signal M)
    (alerts : List OpenAlert)
    → ((name : String)
        → contains name (providers (lifecycle_plan registry routes signal alerts)) ≡ (
            if is_reachable registry alerts
            then contains name (holder_names alerts) && is_some (registry name)
            else names_any_severity name signal routes && by_key registry name))
      × ((lifecycle_plan registry routes signal alerts).targets
          ≡ singles (providers (lifecycle_plan registry routes signal alerts)))
      × ((lifecycle_plan registry routes signal alerts).grouped ≡ [])
      × (length (lifecycle_plan registry routes signal alerts).suppressed
          ≡ (if null (lifecycle_plan registry routes signal alerts).targets then 1 else 0))
unfolding lifecycle_plan lifecycle_targets providers
lifecycle_plan_goes registry routes signal alerts =
    elim (Bool-cases (is_reachable registry alerts)) [
      | inl e ↦
          rw (null-held registry alerts, e, concat-singles)
            (λ name. contains-held registry name alerts, refl, refl, one_reason _ _)
      | inr e ↦
          rw (null-held registry alerts, e, concat-singles)
            (
              λ name.
                  contains-keep_name (by_key registry) name (providers_any_severity routes signal)
                  ∙ ap (λ b. b && by_key registry name)
                      (contains-providers_any_severity name signal routes),
              refl,
              refl,
              one_reason _ _,
            )
    ]
