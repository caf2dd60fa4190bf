-- ===== src/Delivery/Outcomes.antt =====
-- What a delivery that runs to its end reports, from what the providers do
-- (`deliver` in crates/core/src/lib.rs).
use ops_signal.Prelude.{
  String, true, false, Option, none, some, List, [], ◌∷◌, ◌≡◌, refl, ◌==◌, eq_iff, eq_refl,
  Bool-cases, Option-cases, inl, inr, if◌then◌else◌, arith, contains, IsUnique, sym, ap, ◌∙◌, subst,
}
use mathlib.Core.Bool.{false≢true}
use ops_signal.Delivery.{pending, delivered, failed, ProviderOutcome, Registry, Provider}
use ops_signal.Delivery.Tracker.{outcome_of, reports}
use ops_signal.Delivery.Chain.{max_retry_attempts, Attempted, retry, conclude, deliver_chain}
use ops_signal.Delivery.Lookups.{last_report}
use ops_signal.Delivery.Summary.{is_delivered, tried}
use ops_signal.Delivery.Statuses.{reached}
use ops_signal.Delivery.Reports.{
  is_sent, ends_well-failed, takes, accepts, Shows, tried_silent, unreported,
  last_report-conclude_ne, last_report-conclude_self,
}

tried-cons_none :
    (os : List ProviderOutcome) (name : String) (names : List String)
    → outcome_of name os ≡ none
    → tried os (name ∷ names) ≡ tried os names
unfolding tried
tried-cons_none os name names e = ground arith

tried-cons_some :
    (os : List ProviderOutcome) (name : String) (names : List String) (o : ProviderOutcome)
    → outcome_of name os ≡ some o
    → tried os (name ∷ names) ≡ o ∷ tried os names
unfolding tried
tried-cons_some os name names o e = ground arith

other_name :
    (name n : String) (names : List String)
    → contains name names ≡ false
    → contains n names ≡ true
    → (name == n) ≡ false
other_name name n names h c = elim (Bool-cases (name == n)) [
  | inl e ↦
      absurd
        (false≢true (sym h ∙ subst (λ m. contains m names ≡ true) (sym ((eq_iff name n).0 e)) c))
  | inr e ↦ e
]

later_name :
    (name n : String) (names : List String)
    → contains n names ≡ true
    → contains n (name ∷ names) ≡ true
later_name name n names c = ground arith

module _ (providers : Registry) (prior_refs : String → Option String) where
  deliver_chain-unknown :
      (name : String) (names : List String)
      → providers name ≡ none
      → deliver_chain providers prior_refs (name ∷ names) ≡ deliver_chain providers prior_refs names
  unfolding deliver_chain
  deliver_chain-unknown name names e = rw (e, deliver_chain)

  abbrev started : String → ProviderOutcome
  started name = record { provider = name; status = pending; error = none; attempts = 0 }

  abbrev attempted : String → Provider → Attempted
  attempted name p = retry p (prior_refs name) 1 max_retry_attempts none

  deliver_chain-known :
      (name : String) (names : List String) (p : Provider)
      → providers name ≡ some p
      → deliver_chain providers prior_refs (name ∷ names)
        ≡ reports (started name)
          ∷ conclude name (attempted name p) (deliver_chain providers prior_refs names)
  unfolding deliver_chain
  deliver_chain-known name names p e = rw (e, deliver_chain)

  takes-unknown : (name : String) → providers name ≡ none → takes providers prior_refs name ≡ false
  unfolding takes
  takes-unknown name e = rw (e, takes)

  takes-known :
      (name : String) (p : Provider)
      → providers name ≡ some p
      → takes providers prior_refs name ≡ is_sent (attempted name p)
  unfolding takes
  takes-known name p e = rw (e, takes)

  -- A registered provider at the head of a chain.
  reached-known :
      (os : List ProviderOutcome) (name : String) (names : List String) (p : Provider)
      → contains name names ≡ false
      → providers name ≡ some p
      → Shows providers prior_refs os (name ∷ names) (
          reports (started name)
          ∷ conclude name (attempted name p) (deliver_chain providers prior_refs names))
      → (Shows providers prior_refs os names (deliver_chain providers prior_refs names)
          → reached os names ≡ accepts providers prior_refs names)
      → reached os (name ∷ names) ≡ accepts providers prior_refs (name ∷ names)
  reached-known os name names p new known h ih =
      let a = attempted name p in
      let (r, e, st) =
        last_report-conclude_self providers prior_refs name (started name) a names
          (unreported providers prior_refs name names new) in
      let here = tried-cons_some os name names r (h name (ground (arith, eq_refl name)) ∙ e) in
      let others = λ (n : String) (c : contains n names ≡ true).
        h n (later_name name n names c)
        ∙ last_report-conclude_ne providers prior_refs n name (started name) a names refl
            (other_name name n names new c) in
      elim (Bool-cases (is_sent a)) [
        | inl yes_sent ↦
            rw (here, takes-known name p known, yes_sent)
              (rw (tried_silent providers prior_refs os names (λ n c. others n c ∙ rw yes_sent))
                (ap is_delivered (st ∙ ap (λ b. if b then delivered else failed) yes_sent)))
        | inr not_sent ↦
            rw (here, takes-known name p known, not_sent)
              (ends_well-failed r (tried os names) (st ∙ rw not_sent)
                ∙ ih (λ n c. others n c ∙ rw not_sent))
      ]

  pub reached-deliver_chain :
      (os : List ProviderOutcome) (names : List String)
      → IsUnique names
      → Shows providers prior_refs os names (deliver_chain providers prior_refs names)
      → reached os names ≡ accepts providers prior_refs names
  unfolding tried
  reached-deliver_chain os [] u h = refl
  reached-deliver_chain os (name ∷ names) u h = elim (Option-cases (providers name)) [
    | inl unknown ↦
        let same = deliver_chain-unknown name names unknown in
        let silent =
          h name (ground (arith, eq_refl name))
          ∙ ap (last_report name) same
          ∙ unreported providers prior_refs name names u.0 in
        rw (tried-cons_none os name names silent, takes-unknown name unknown)
          (reached-deliver_chain os names u.1
            (λ n c. h n (later_name name n names c) ∙ ap (last_report n) same))
    | inr (p, known) ↦
        reached-known os name names p u.0 known
          (λ n c. h n c ∙ ap (last_report n) (deliver_chain-known name names p known))
          (reached-deliver_chain os names u.1)
  ]
