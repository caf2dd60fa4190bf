-- ===== src/Delivery/Statuses.antt =====
-- What the status of a result says of the targets (`summarize` in crates/core/src/lib.rs).
use ops_signal.Prelude.{
  ◌≤◌, String, Bool, false, not, Option, none, some, List, [], ◌∷◌, ◌++◌, ◌≡◌, refl, all, null,
  length, append-nil, append_assoc, any, last?, eqb, arith, sym, ap, ◌∙◌, if◌then◌else◌,
}
use ops_signal.Routing.Plan.{DeliveryPlan}
use ops_signal.Delivery.{delivered, partial, failed, skipped, grouped, ProviderOutcome}
use ops_signal.Delivery.Summary.{
  is_delivered, tried, cut, Sums, no_sums, add_target, add_targets, overall, summarize, joined,
}

abbrev pub ends_well : Option ProviderOutcome → Bool
ends_well none = false
ends_well (some o) = is_delivered o.status

-- The provider of a target that was tried last delivered.
abbrev pub reached : List ProviderOutcome → List String → Bool
reached outcomes chain = ends_well (last? (tried outcomes chain))

-- The provider of an outcome that was delivered.
abbrev pub winner : Option ProviderOutcome → Option String
winner none = none
winner (some o) = if is_delivered o.status then some o.provider else none

-- The provider that delivered for each target that was reached, in plan order.
unfoldable pub winners : List ProviderOutcome → List (List String) → List String
winners outcomes [] = []
winners outcomes (chain ∷ targets) =
    let rest = winners outcomes targets in
    elim (winner (last? (tried outcomes chain))) [ none ↦ rest | some name ↦ name ∷ rest ]

winner-cut :
    (msg : Option String) (os : List ProviderOutcome)
    → winner (last? (cut msg os)) ≡ winner (last? os)
unfolding cut
winner-cut none os = refl
winner-cut (some msg) [] = refl
winner-cut (some msg) (o ∷ []) = ground arith
winner-cut (some msg) (o ∷ p ∷ os) = winner-cut (some msg) (p ∷ os)

abbrev append_some : List String → Option String → List String
append_some names none = names
append_some names (some n) = names ++ n ∷ []

delivered_by-add_target :
    (only : Bool) (tries : List ProviderOutcome) (s : Sums)
    → (add_target only tries s).delivered_by ≡ append_some s.delivered_by (winner (last? tries))
unfolding add_target
delivered_by-add_target only tries s = ground arith

delivered_by-add_targets :
    (only : Bool) (cut_off : Option String) (os : List ProviderOutcome)
    (targets : List (List String)) (s : Sums)
    → (add_targets only cut_off os targets s).delivered_by ≡ s.delivered_by ++ winners os targets
unfolding add_targets winners
delivered_by-add_targets only cut_off os [] s = sym (append-nil s.delivered_by)
delivered_by-add_targets only cut_off os (chain ∷ targets) s =
    delivered_by-add_targets only cut_off os targets _
    ∙ ap (λ l. l ++ winners os targets)
        (delivered_by-add_target only (cut cut_off (tried os chain)) s
          ∙ ap (append_some s.delivered_by) (winner-cut cut_off (tried os chain)))
    ∙ go (winner (last? (tried os chain)))
  where
    go :
        (w : Option String)
        → append_some s.delivered_by w ++ winners os targets
          ≡ s.delivered_by
            ++ (elim w [ none ↦ winners os targets | some n ↦ n ∷ winners os targets ])
    go none = refl
    go (some n) = append_assoc s.delivered_by (n ∷ []) (winners os targets)

length-winners :
    (os : List ProviderOutcome) (targets : List (List String))
    → (length (winners os targets) ≤ length targets)
      × (eqb (length (winners os targets)) (length targets) ≡ all (reached os) targets)
      × (eqb (length (winners os targets)) 0 ≡ not (any (reached os) targets))
unfolding winners
length-winners os [] = (omega arith, refl, refl)
length-winners os (chain ∷ targets) = ground (arith, length-winners os targets)

-- The status of a result, with or without a timeout, follows the targets: grouped or skipped if the
-- plan has none, delivered if the provider tried last delivered on every target, failed if on none,
-- else partial. `provider` lists the providers that delivered, in plan order.
pub summarize_status :
    (plan : DeliveryPlan) (os : List ProviderOutcome) (cut_off : Option String)
    → ((summarize plan os cut_off).status ≡ (
        if null plan.targets
        then (if null plan.grouped then skipped else grouped)
        else if all (reached os) plan.targets
        then delivered
        else if any (reached os) plan.targets
        then partial
        else failed))
      × ((summarize plan os cut_off).provider ≡ joined "," (winners os plan.targets))
unfolding summarize overall
summarize_status plan os cut_off =
    let e =
      delivered_by-add_targets (eqb (length plan.targets) 1) cut_off os plan.targets no_sums in
    (rw e (ground (arith, length-winners os plan.targets)), rw e)
