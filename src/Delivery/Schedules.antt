-- ===== src/Delivery/Schedules.antt =====
-- A delivery's outcome does not depend on how its targets take turns (crates/core/src/lib.rs).
use ops_signal.Prelude.{
  ℕ, String, Bool, true, false, Option, none, some, List, [], ◌∷◌, ◌++◌, ◌≡◌, refl, ◌==◌, eq_iff,
  keep, or_else, Bool-cases, inl, inr, arith, concat, contains, IsUnique, eqb, length, ap₂,
  contains-append, or-eq-false, Option-cases, append-nil, sym, ap, ◌∙◌,
}
use ops_signal.Routing.Plan.{DeliveryPlan}
use ops_signal.Delivery.{ProviderOutcome, Registry}
use ops_signal.Delivery.Tracker.{outcome_of, Operation, new}
use ops_signal.Delivery.Chain.{
  weave, deliver_chain, steps, run, IsComplete, conclude, Attempted, sent_at, gave_up,
}
use ops_signal.Delivery.Weave.{AtMostOne, keep-append, keep-weave}
use ops_signal.Delivery.Lookups.{is_about, last_report, outcome_of-operate_all, last_report-about}
use ops_signal.Delivery.Summary.{tried, Sums, no_sums, add_targets, summarize, deliver}

pub contains-IsUnique_append :
    (n : String) (xs ys : List String)
    → contains n xs ≡ true
    → IsUnique (xs ++ ys)
    → contains n ys ≡ false
contains-IsUnique_append n [] ys h u = cc
contains-IsUnique_append n (x ∷ xs) ys h u =
    ground (arith, contains-IsUnique_append n xs ys, contains-append x xs ys, eq_iff x n)

pub IsUnique-right : (xs ys : List String) → IsUnique (xs ++ ys) → IsUnique ys
IsUnique-right [] ys u = u
IsUnique-right (x ∷ xs) ys u = IsUnique-right xs ys u.1

pub or_else-none : {A : Type 0} (o : Option A) → or_else o none ≡ o
or_else-none none = refl
or_else-none (some a) = refl

module _ (providers : Registry) (prior_refs : String → Option String) where
  -- A chain reports on its own providers only.
  conclude-about :
      (n name : String) (a : Attempted) (rest : List Operation)
      → (name == n) ≡ false
      → keep (is_about n) rest ≡ []
      → keep (is_about n) (conclude name a rest) ≡ []
  unfolding conclude
  conclude-about n name (sent_at k none) rest h e = ground arith
  conclude-about n name (sent_at k (some r)) rest h e = ground arith
  conclude-about n name (gave_up x) rest h e = ground arith

  pub deliver_chain-about :
      (n : String) (chain : List String)
      → contains n chain ≡ false
      → keep (is_about n) (deliver_chain providers prior_refs chain) ≡ []
  unfolding deliver_chain
  deliver_chain-about n [] h = refl
  deliver_chain-about n (name ∷ chain) h =
      let (h₁, h₂) = or-eq-false (name == n) _ h in
      elim (Option-cases (providers name)) [
        | inl unknown ↦ rw (unknown, deliver_chain) (deliver_chain-about n chain h₂)
        | inr (provider, known) ↦
            rw (known, deliver_chain, h₁)
              (conclude-about n name _ _ h₁ (deliver_chain-about n chain h₂))
      ]

  pub steps-about :
      (n : String) (targets : List (List String))
      → contains n (concat targets) ≡ false
      → keep (is_about n) (concat (steps providers prior_refs targets)) ≡ []
  steps-about n [] h = refl
  steps-about n (chain ∷ targets) h =
      let (h₁, h₂) =
        or-eq-false (contains n chain) _ (sym (contains-append n chain (concat targets)) ∙ h) in
      keep-append (is_about n) (deliver_chain providers prior_refs chain) _
      ∙ ap₂ (λ a b. a ++ b) (deliver_chain-about n chain h₁) (steps-about n targets h₂)

  steps-AtMostOne :
      (n : String) (targets : List (List String))
      → IsUnique (concat targets)
      → AtMostOne (is_about n) (steps providers prior_refs targets)
  steps-AtMostOne n [] u = tt
  steps-AtMostOne n (chain ∷ targets) u = elim (Bool-cases (contains n chain)) [
    | inl here ↦
        inr (steps-about n targets (contains-IsUnique_append n chain (concat targets) here u))
    | inr elsewhere ↦ inl (
      deliver_chain-about n chain elsewhere,
      steps-AtMostOne n targets (IsUnique-right chain (concat targets) u),
    )
  ]

  -- The reports that all the targets make, one target after the other.
  abbrev pub in_turn : List (List String) → List Operation
  in_turn targets = concat (steps providers prior_refs targets)

  pub outcome_of-run :
      (n : String) (schedule : List ℕ) (targets : List (List String))
      → IsUnique (concat targets)
      → IsComplete providers prior_refs schedule targets
      → outcome_of n (run providers prior_refs schedule targets).outcomes
        ≡ last_report n (in_turn targets)
  unfolding run
  outcome_of-run n schedule targets u done =
      let (ops, left) = weave schedule (steps providers prior_refs targets) in
      let kept =
        keep-weave (is_about n) schedule (steps providers prior_refs targets)
          (steps-AtMostOne n targets u) in
      outcome_of-operate_all n ops new
      ∙ or_else-none (last_report n ops)
      ∙ sym (last_report-about n ops)
      ∙ ap (last_report n)
          (ap (keep (is_about n)) (sym (append-nil ops) ∙ ap (λ l. ops ++ l) (sym done)) ∙ kept)
      ∙ last_report-about n (in_turn targets)

-- A summary reads the outcomes by provider only.
pub tried_cong :
    (os os' : List ProviderOutcome) (chain : List String)
    → ((n : String) → outcome_of n os ≡ outcome_of n os')
    → tried os chain ≡ tried os' chain
unfolding tried
tried_cong os os' [] h = refl
tried_cong os os' (n ∷ chain) h = ground (arith, h n, tried_cong os os' chain h)

add_targets_cong :
    (only : Bool) (cut_off : Option String) (os os' : List ProviderOutcome)
    (targets : List (List String)) (s : Sums)
    → ((n : String) → outcome_of n os ≡ outcome_of n os')
    → add_targets only cut_off os targets s ≡ add_targets only cut_off os' targets s
unfolding add_targets
add_targets_cong only cut_off os os' [] s h = refl
add_targets_cong only cut_off os os' (chain ∷ targets) s h =
    rw (tried_cong os os' chain h) (add_targets_cong only cut_off os os' targets _ h)

pub summarize_cong :
    (plan : DeliveryPlan) (cut_off : Option String) (os os' : List ProviderOutcome)
    → ((n : String) → outcome_of n os ≡ outcome_of n os')
    → summarize plan os cut_off ≡ summarize plan os' cut_off
unfolding summarize
summarize_cong plan cut_off os os' h =
    rw (add_targets_cong (eqb (length plan.targets) 1) cut_off os os' plan.targets no_sums h)

-- The targets of a plan that names no provider twice may take turns in any way: brought to their
-- end, they give one and the same result, errors, attempts and providers included.
pub deliver_schedules :
    (providers : Registry) (prior_refs : String → Option String) (plan : DeliveryPlan)
    (schedule other : List ℕ)
    → IsUnique (concat plan.targets)
    → IsComplete providers prior_refs schedule plan.targets
    → IsComplete providers prior_refs other plan.targets
    → deliver providers prior_refs schedule plan ≡ deliver providers prior_refs other plan
unfolding deliver
deliver_schedules providers prior_refs plan schedule other u c c' =
    summarize_cong plan none _ _ (λ n.
      outcome_of-run providers prior_refs n schedule plan.targets u c
      ∙ sym (outcome_of-run providers prior_refs n other plan.targets u c'))
