-- ===== src/Delivery/Chain.antt =====
-- `deliver_chain` and `deliver` (crates/core/src/lib.rs). The targets of a plan run at once, so a
-- delivery is a schedule: the target that makes the next step, again and again. A timeout cuts a
-- schedule short. The waits between attempts have no part in the outcome.
use ops_signal.Prelude.{
  ℕ, zero, suc, ◌+◌, String, Option, none, some, List, [], ◌∷◌, ◌++◌, map, concat, ok, err, ◌≡◌,
}
use ops_signal.Delivery.{pending, delivered, failed, Provider, Registry}
use ops_signal.Delivery.Tracker
use ops_signal.Delivery.Tracker.{Tracker, Operation, reports, keeps_ref, operate_all}

-- `MAX_RETRY_ATTEMPTS`.
abbrev pub max_retry_attempts : ℕ
max_retry_attempts = 3

-- How the attempts on a provider ended.
pub data Attempted : Type 0 where
  sent_at : ℕ → Option String → Attempted
  gave_up : Option String → Attempted

-- `for attempt in 1..=MAX_RETRY_ATTEMPTS`: from an attempt, with as many left.
unfoldable pub retry : Provider → Option String → ℕ → ℕ → Option String → Attempted
retry provider prior attempt zero last_error = gave_up last_error
retry provider prior attempt (suc left) last_error = elim (provider.send_with_ref prior attempt) [
  | ok alert_ref ↦ sent_at attempt alert_ref
  | err e ↦ retry provider prior (attempt + 1) left (some e)
]

abbrev pub keep_ref_if : String → Option String → List Operation
keep_ref_if name none = []
keep_ref_if name (some ref) = keeps_ref name ref ∷ []

-- What a provider's attempts do to the tracker; `rest` are the steps of the providers after it,
-- which are tried only if it failed.
unfoldable pub conclude : String → Attempted → List Operation → List Operation
conclude name (sent_at attempt alert_ref) rest =
    keep_ref_if name alert_ref
    ++ reports (record { provider = name; status = delivered; error = none; attempts = attempt })
      ∷ []
conclude name (gave_up last_error) rest =
    reports (record {
      provider = name;
      status = failed;
      error = last_error;
      attempts = max_retry_attempts;
    })
    ∷ rest

module _ (providers : Registry) (prior_refs : String → Option String) where
  -- `deliver_chain`: the steps of one target. A name with no provider is passed over.
  unfoldable pub deliver_chain : List String → List Operation
  unfolding retry conclude
  deliver_chain [] = []
  deliver_chain (name ∷ chain) =
      let rest = deliver_chain chain in
      elim (providers name) [
        | none ↦ rest
        | some provider ↦
            reports (record { provider = name; status = pending; error = none; attempts = 0 })
            ∷ conclude name (retry provider (prior_refs name) 1 max_retry_attempts none) rest
      ]

  -- The steps of each target.
  abbrev pub steps : List (List String) → List (List Operation)
  steps = map deliver_chain

-- The next step of the target with an index is taken out, if it has one.
unfoldable pub take_step : {A : Type 0} → ℕ → List (List A) → Option A × List (List A)
take_step i [] = (none, [])
take_step zero ([] ∷ rest) = (none, [] ∷ rest)
take_step zero ((x ∷ xs) ∷ rest) = (some x, xs ∷ rest)
take_step (suc i) (xs ∷ rest) = let (x, rest') = take_step i rest in (x, xs ∷ rest')

abbrev pub cons_some : {A : Type 0} → Option A → List A → List A
cons_some none xs = xs
cons_some (some x) xs = x ∷ xs

-- The steps made in the order of a schedule, and those that are left.
unfoldable pub weave : {A : Type 0} → List ℕ → List (List A) → List A × List (List A)
unfolding take_step
weave [] chains = ([], chains)
weave (i ∷ schedule) chains =
    let (x, chains') = take_step i chains in
    let (xs, left) = weave schedule chains' in (cons_some x xs, left)

module _ (providers : Registry) (prior_refs : String → Option String) where
  -- The tracker after the steps of a schedule: `join_all` in `deliver`.
  unfoldable pub run : List ℕ → List (List String) → Tracker
  unfolding weave operate_all
  run schedule targets =
      operate_all (weave schedule (steps providers prior_refs targets)).0 Tracker.new

  -- Every target has come to its end.
  abbrev pub IsComplete : List ℕ → List (List String) → Type 0
  IsComplete schedule targets = concat (weave schedule (steps providers prior_refs targets)).1 ≡ []
