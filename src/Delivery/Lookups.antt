-- ===== src/Delivery/Lookups.antt =====
-- The outcome that a tracker ends with for each provider.
use ops_signal.Prelude.{
  String, Bool, false, Option, none, some, List, [], ◌∷◌, ◌≡◌, refl, ◌==◌, eq_iff, keep, or_else,
  Bool-cases, inl, inr, if◌then◌else◌, arith,
}
use ops_signal.Delivery.{ProviderOutcome}
use ops_signal.Delivery.Tracker.{
  Tracker, outcome_of, upsert, report, Operation, reports, keeps_ref, operate, operate_all,
}

-- The operation reports on the provider.
abbrev pub is_about : String → Operation → Bool
is_about name (reports o) = o.provider == name
is_about name (keeps_ref _ _) = false

-- The last report on a provider.
unfoldable pub last_report : String → List Operation → Option ProviderOutcome
last_report name [] = none
last_report name (reports o ∷ ops) =
    or_else (last_report name ops) (if o.provider == name then some o else none)
last_report name (keeps_ref _ _ ∷ ops) = last_report name ops

outcome_of-upsert :
    (name : String) (o : ProviderOutcome) (os : List ProviderOutcome)
    → outcome_of name (upsert o os) ≡ (if o.provider == name then some o else outcome_of name os)
unfolding upsert
outcome_of-upsert name o [] = refl
outcome_of-upsert name o (x ∷ xs) = ground (
  arith,
  outcome_of-upsert name o xs,
  eq_iff x.provider o.provider,
  eq_iff x.provider name,
  eq_iff o.provider name,
)

-- A provider's outcome is the last one reported, if there was one, else the one that was there.
pub outcome_of-operate_all :
    (name : String) (ops : List Operation) (t : Tracker)
    → outcome_of name (operate_all ops t).outcomes
      ≡ or_else (last_report name ops) (outcome_of name t.outcomes)
unfolding operate_all operate last_report
outcome_of-operate_all name [] t = refl
outcome_of-operate_all name (reports o ∷ ops) t =
    ground
      (arith, outcome_of-operate_all name ops (report o t), outcome_of-upsert name o t.outcomes)
outcome_of-operate_all name (keeps_ref n r ∷ ops) t =
    outcome_of-operate_all name ops (operate (keeps_ref n r) t)

-- The operations that report on a provider.
abbrev pub about : String → List Operation → List Operation
about name = keep (is_about name)

pub last_report-about :
    (name : String) (ops : List Operation)
    → last_report name (about name ops) ≡ last_report name ops
unfolding last_report
last_report-about name [] = refl
last_report-about name (reports o ∷ ops) = elim (Bool-cases (o.provider == name)) [
  | inl e ↦ ground (arith, last_report-about name ops)
  | inr e ↦ ground (arith, last_report-about name ops)
]
last_report-about name (keeps_ref n r ∷ ops) = last_report-about name ops
