-- ===== src/Delivery/Tracker.antt =====
-- `Tracker` (crates/core/src/lib.rs): the outcomes of one delivery. What the chains do to it is a
-- list of operations, since its mutexes make each of them one step. `written` is what was handed to
-- the sink, in order; a sink that fails is logged and changes nothing here.
use ops_signal.Prelude.{String, Option, List, [], ◌∷◌, ◌++◌, ◌==◌, find, if◌then◌else◌}
use ops_signal.Delivery.{ProviderOutcome}

pub record Tracker : Type 0 where
  pub outcomes : List ProviderOutcome
  pub refs : List (String × String)
  pub written : List ProviderOutcome

-- `Tracker::new`, without what never changes: the signal, the sink and `prior_refs`.
abbrev pub new : Tracker
new = record { outcomes = []; refs = []; written = [] }

-- The outcome of a provider: `outcomes.iter().find(|o| o.provider == name)`.
abbrev pub outcome_of : String → List ProviderOutcome → Option ProviderOutcome
outcome_of name = find (λ o. o.provider == name)

-- The existing outcome of the provider is replaced, or the outcome is pushed.
unfoldable pub upsert : ProviderOutcome → List ProviderOutcome → List ProviderOutcome
upsert o [] = o ∷ []
upsert o (x ∷ xs) = let rest = upsert o xs in if x.provider == o.provider then o ∷ xs else x ∷ rest

-- `Tracker::report`.
unfoldable pub report : ProviderOutcome → Tracker → Tracker
unfolding upsert
report o t = record t { outcomes = upsert o t.outcomes; written = t.written ++ o ∷ [] }

unfoldable pub insert_ref : String → String → List (String × String) → List (String × String)
insert_ref name ref [] = (name, ref) ∷ []
insert_ref name ref ((n, r) ∷ refs) =
    let rest = insert_ref name ref refs in if n == name then (name, ref) ∷ refs else (n, r) ∷ rest

-- `Tracker::keep_ref`.
unfoldable pub keep_ref : String → String → Tracker → Tracker
unfolding insert_ref
keep_ref name ref t = record t { refs = insert_ref name ref t.refs }

-- One locked step of a chain.
pub data Operation : Type 0 where
  reports : ProviderOutcome → Operation
  keeps_ref : String → String → Operation

unfoldable pub operate : Operation → Tracker → Tracker
unfolding report keep_ref
operate (reports o) t = report o t
operate (keeps_ref name ref) t = keep_ref name ref t

unfoldable pub operate_all : List Operation → Tracker → Tracker
unfolding operate
operate_all [] t = t
operate_all (op ∷ ops) t = operate_all ops (operate op t)
