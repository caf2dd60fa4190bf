-- ===== src/Delivery/EndToEnd.antt =====
-- The status of a delivery, from what the providers do (`deliver` in crates/core/src/lib.rs).
use ops_signal.Prelude.{
  ℕ, String, true, false, ◌&&◌, ◌||◌, Option, none, some, List, [], ◌∷◌, ◌++◌, ◌≡◌, refl, ◌==◌,
  or_else, any, all, null, Bool-cases, inl, inr, if◌then◌else◌, arith, concat, contains,
  contains-append, IsUnique, sym, ap, ap₂, ◌∙◌,
}
use ops_signal.Routing.Plan.{DeliveryPlan}
use ops_signal.Delivery.{delivered, partial, failed, skipped, grouped, ProviderOutcome, Registry}
use ops_signal.Delivery.Tracker.{Operation, reports, keeps_ref}
use ops_signal.Delivery.Chain.{deliver_chain, IsComplete, run}
use ops_signal.Delivery.Lookups.{last_report}
use ops_signal.Delivery.Summary.{deliver}
use ops_signal.Delivery.Schedules.{
  or_else-none, contains-IsUnique_append, IsUnique-right, steps-about, in_turn, outcome_of-run,
}
use ops_signal.Delivery.Reports.{last_report-none, accepts, Shows, unreported}
use ops_signal.Delivery.Outcomes.{reached-deliver_chain}
use ops_signal.Delivery.Statuses.{reached, summarize_status}

or_else_assoc : {A : Type 0} (x y z : Option A) → or_else x (or_else y z) ≡ or_else (or_else x y) z
or_else_assoc none y z = refl
or_else_assoc (some a) y z = refl

last_report-append :
    (n : String) (xs ys : List Operation)
    → last_report n (xs ++ ys) ≡ or_else (last_report n ys) (last_report n xs)
unfolding last_report
last_report-append n [] ys = sym (or_else-none (last_report n ys))
last_report-append n (reports o ∷ xs) ys =
    ap (λ r. or_else r (if o.provider == n then some o else none)) (last_report-append n xs ys)
    ∙ sym (or_else_assoc (last_report n ys) (last_report n xs) _)
last_report-append n (keeps_ref _ _ ∷ xs) ys = last_report-append n xs ys

IsUnique-left : (xs ys : List String) → IsUnique (xs ++ ys) → IsUnique xs
IsUnique-left [] ys u = tt
IsUnique-left (x ∷ xs) ys u = ground (arith, contains-append x xs ys, IsUnique-left xs ys)

not-both :
    (n : String) (xs ys : List String)
    → IsUnique (xs ++ ys)
    → contains n ys ≡ true
    → contains n xs ≡ false
not-both n xs ys u h = elim (Bool-cases (contains n xs)) [
  | inl e ↦ cc (h, contains-IsUnique_append n xs ys e u)
  | inr e ↦ e
]

module _ (providers : Registry) (prior_refs : String → Option String) where
  all-reached :
      (os : List ProviderOutcome) (targets : List (List String))
      → IsUnique (concat targets)
      → Shows providers prior_refs os (concat targets) (in_turn providers prior_refs targets)
      → (all (reached os) targets ≡ all (accepts providers prior_refs) targets)
        × (any (reached os) targets ≡ any (accepts providers prior_refs) targets)
  all-reached os [] u h = (refl, refl)
  all-reached os (chain ∷ targets) u h =
      let here =
        reached-deliver_chain providers prior_refs os chain (IsUnique-left chain (concat targets) u)
          (λ n c.
            h n (contains-append n chain (concat targets) ∙ rw c)
            ∙ last_report-append n (deliver_chain providers prior_refs chain) _
            ∙ ap (λ r. or_else r (last_report n (deliver_chain providers prior_refs chain)))
                (last_report-none n _ (
                  steps-about providers prior_refs n targets
                    (contains-IsUnique_append n chain (concat targets) c u)))) in
      let (alls, anys) = all-reached os targets (IsUnique-right chain (concat targets) u) (λ n c.
        h n (ground (arith, contains-append n chain (concat targets), c))
        ∙ last_report-append n (deliver_chain providers prior_refs chain) _
        ∙ ap (or_else (last_report n (in_turn providers prior_refs targets)))
            (unreported providers prior_refs n chain (not-both n chain (concat targets) u c))
        ∙ or_else-none _) in
      (ap₂ (λ a b. a && b) here alls, ap₂ (λ a b. a || b) here anys)

  -- A delivery to targets that name no provider twice, brought to its end, has this status: grouped
  -- or skipped if there is no target, delivered if on each target some registered provider
  -- accepts the signal within three attempts, partial if on some but not all, and failed if
  -- on none.
  pub deliver_status :
      (plan : DeliveryPlan) (schedule : List ℕ)
      → IsUnique (concat plan.targets)
      → IsComplete providers prior_refs schedule plan.targets
      → (deliver providers prior_refs schedule plan).status ≡ (
          if null plan.targets
          then (if null plan.grouped then skipped else grouped)
          else if all (accepts providers prior_refs) plan.targets
          then delivered
          else if any (accepts providers prior_refs) plan.targets
          then partial
          else failed)
  unfolding deliver
  deliver_status plan schedule u c =
      let os = (run providers prior_refs schedule plan.targets).outcomes in
      let (alls, anys) =
        all-reached os plan.targets u
          (λ n _. outcome_of-run providers prior_refs n schedule plan.targets u c) in
      (summarize_status plan os none).0 ∙ rw (alls, anys)
