-- ===== src/Delivery/Reports.antt =====
-- What one target reports, from what its providers do (`deliver_chain` in crates/core/src/lib.rs).
use ops_signal.Prelude.{
  String, Bool, true, false, Option, none, some, List, [], ◌∷◌, ◌≡◌, refl, ◌==◌, eq_refl, keep, any,
  last?, if◌then◌else◌, arith, contains, sym, ap, ◌∙◌,
}
use ops_signal.Delivery.{delivered, failed, ProviderOutcome, Registry}
use ops_signal.Delivery.Tracker.{outcome_of, Operation, reports}
use ops_signal.Delivery.Chain.{
  max_retry_attempts, Attempted, sent_at, gave_up, retry, conclude, deliver_chain,
}
use ops_signal.Delivery.Lookups.{is_about, last_report, last_report-about}
use ops_signal.Delivery.Summary.{tried}
use ops_signal.Delivery.Schedules.{or_else-none, deliver_chain-about}
use ops_signal.Delivery.Statuses.{ends_well}

abbrev pub is_sent : Attempted → Bool
is_sent (sent_at _ _) = true
is_sent (gave_up _) = false

pub last_report-none :
    (n : String) (ops : List Operation) → keep (is_about n) ops ≡ [] → last_report n ops ≡ none
unfolding last_report
last_report-none n ops h = sym (last_report-about n ops) ∙ ap (last_report n) h

-- A failed provider before others does not decide how a target ends.
pub ends_well-failed :
    (o : ProviderOutcome) (os : List ProviderOutcome)
    → o.status ≡ failed
    → ends_well (last? (o ∷ os)) ≡ ends_well (last? os)
ends_well-failed o [] h = ground arith
ends_well-failed o (p ∷ os) h = refl

module _ (providers : Registry) (prior_refs : String → Option String) where
  -- The provider is registered and accepts the signal within its attempts.
  unfoldable pub takes : String → Bool
  takes name = elim (providers name) [
    | none ↦ false
    | some p ↦ is_sent (retry p (prior_refs name) 1 max_retry_attempts none)
  ]

  -- Some provider of the target takes the signal.
  abbrev pub accepts : List String → Bool
  accepts = any takes

  -- The outcomes of a chain's providers are those that the chain reports.
  abbrev pub Shows : List ProviderOutcome → List String → List Operation → Type 0
  Shows os names ops = (n : String) → contains n names ≡ true → outcome_of n os ≡ last_report n ops

  pub tried_silent :
      (os : List ProviderOutcome) (names : List String)
      → ((n : String) → contains n names ≡ true → outcome_of n os ≡ none)
      → tried os names ≡ []
  unfolding tried
  tried_silent os [] h = refl
  tried_silent os (n ∷ names) h =
      ground (arith, h n, eq_refl n, tried_silent os names (λ m c. h m (ground (arith, c))))

  -- A name that a chain does not list is not reported by it.
  pub unreported :
      (n : String) (chain : List String)
      → contains n chain ≡ false
      → last_report n (deliver_chain providers prior_refs chain) ≡ none
  unreported n chain h = last_report-none n _ (deliver_chain-about providers prior_refs n chain h)

  -- What a chain that starts with a registered provider reports.
  pub last_report-conclude_ne :
      (n name : String) (o : ProviderOutcome) (a : Attempted) (chain : List String)
      → (o.provider ≡ name)
      → (name == n) ≡ false
      → last_report n (reports o ∷ conclude name a (deliver_chain providers prior_refs chain))
        ≡ (if is_sent a then none else last_report n (deliver_chain providers prior_refs chain))
  unfolding last_report conclude
  last_report-conclude_ne n name o (sent_at k none) chain e h = ground arith
  last_report-conclude_ne n name o (sent_at k (some r)) chain e h = ground arith
  last_report-conclude_ne n name o (gave_up x) chain e h =
      ground (arith, or_else-none (last_report n (deliver_chain providers prior_refs chain)))

  pub last_report-conclude_self :
      (name : String) (o : ProviderOutcome) (a : Attempted) (chain : List String)
      → last_report name (deliver_chain providers prior_refs chain) ≡ none
      → (r : ProviderOutcome) × (last_report name
            (reports o ∷ conclude name a (deliver_chain providers prior_refs chain))
          ≡ some r)
        × (r.status ≡ (if is_sent a then delivered else failed))
  unfolding last_report conclude
  last_report-conclude_self name o (sent_at k none) chain h = (
    record { provider = name; status = delivered; error = none; attempts = k },
    ground (arith, eq_refl name),
    refl,
  )
  last_report-conclude_self name o (sent_at k (some r)) chain h = (
    record { provider = name; status = delivered; error = none; attempts = k },
    ground (arith, eq_refl name),
    refl,
  )
  last_report-conclude_self name o (gave_up x) chain h = (
    record { provider = name; status = failed; error = x; attempts = max_retry_attempts },
    ground (arith, eq_refl name),
    refl,
  )
