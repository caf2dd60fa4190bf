-- ===== src/Routing.antt =====
-- crates/core/src/routing.rs: the routes of a config. `Routing/Plan.antt` has the planning of a
-- delivery, and the modules below that what holds of a plan.
pub mod Plan
pub mod Targets
pub mod Decisions
pub mod Names
pub mod Unlost
pub mod Chosen
pub mod Gates
pub mod Modes
pub mod OneMode
use ops_signal.Prelude.{
  ℕ, String, Bool, true, false, not, ◌&&◌, ◌||◌, Option, none, some, List, [], ◌∷◌, ◌++◌, ◌==◌, map,
  null, contains, is_some, format, join, if◌then◌else◌,
}
use ops_signal.Window.{Window}
use ops_signal.Signal.{Severity, info, success, warning, error, critical, Signal}

-- `RouteMatch`.
pub record RouteMatch : Type 0 where
  pub severity : List Severity
  pub environment : Option String
  pub source : Option String

-- `DeliveryMode`.
pub data DeliveryMode : Type 0 where
  failover fanout : DeliveryMode

-- `RateLimit`.
pub record RateLimit : Type 0 where
  pub max : ℕ
  pub per : Window

-- `Route`.
pub record Route : Type 0 where
  pub match_rule : RouteMatch
  pub providers : List String
  pub mode : DeliveryMode
  pub dedup : Option Window
  pub rate_limit : Option RateLimit
  pub group_by : Option (List String)
  pub group_wait : Option Window

-- `DEFAULT_GROUP_WAIT`.
abbrev pub default_group_wait : Window
default_group_wait = record { secs = 30 }

-- `Route::is_throttled`.
unfoldable pub is_throttled : Route → Bool
is_throttled route = is_some route.dedup || is_some route.rate_limit

-- `Route::is_grouped`.
unfoldable pub is_grouped : Route → Bool
is_grouped route = is_some route.group_by || is_some route.group_wait

-- `Route::group_window`.
unfoldable pub group_window : Route → Option Window
unfolding is_grouped
group_window route =
    if is_grouped route
    then elim route.group_wait [ none ↦ some default_group_wait | some w ↦ some w ]
    else none

-- `Route::gates_signals`.
unfoldable pub gates_signals : Route → Bool
unfolding is_grouped is_throttled
gates_signals route = if is_grouped route then is_some route.dedup else is_throttled route

-- A name is pushed unless it is there: the loop of `targets` and `providers_any_severity`.
unfoldable pub push_new : List String → List String → List String
push_new names [] = names
push_new names (name ∷ rest) =
    push_new (if contains name names then names else names ++ name ∷ []) rest

-- `Route::targets`.
unfoldable pub targets : Route → List (List String)
unfolding push_new
targets route =
    let names = push_new [] route.providers in
    elim route.mode [ failover ↦ names ∷ [] | fanout ↦ map (λ n. n ∷ []) names ]

-- `Route::describe`.
unfoldable pub describe : Route → String
describe route = format ("[" ∷ join ", " route.providers ∷ "]" ∷ [])

-- `==` on `Severity`.
abbrev pub same_severity : Severity → Severity → Bool
same_severity info info = true
same_severity success success = true
same_severity warning warning = true
same_severity error error = true
same_severity critical critical = true
same_severity _ _ = false

unfoldable pub lists_severity : List Severity → Severity → Bool
lists_severity [] s = false
lists_severity (x ∷ xs) s = same_severity x s || lists_severity xs s

-- `as_deref() == Some(text)`.
abbrev pub is_text : Option String → String → Bool
is_text none t = false
is_text (some s) t = s == t

-- `RouteMatch::matches_any_severity`.
unfoldable pub matches_any_severity : {M : Type 0} → RouteMatch → Signal M → Bool
matches_any_severity rule signal =
    (elim rule.environment [ none ↦ true | some env ↦ is_text signal.environment env ])
    && (elim rule.source [ none ↦ true | some src ↦ signal.source == src ])

-- `RouteMatch::matches`.
unfoldable pub matches : {M : Type 0} → RouteMatch → Signal M → Bool
unfolding matches_any_severity lists_severity
matches rule signal =
    if not (null rule.severity) && not (lists_severity rule.severity signal.severity)
    then false
    else matches_any_severity rule signal

-- The loop of `RoutingConfig::providers_any_severity`, from the names found so far.
unfoldable pub visit_any_severity : {M : Type 0} → Signal M → List String → List Route → List String
unfolding matches_any_severity push_new
visit_any_severity signal names [] = names
visit_any_severity signal names (r ∷ rs) =
    visit_any_severity signal
      (if matches_any_severity r.match_rule signal then push_new names r.providers else names) rs

-- `RoutingConfig::providers_any_severity`.
unfoldable pub providers_any_severity : {M : Type 0} → List Route → Signal M → List String
unfolding visit_any_severity
providers_any_severity routes signal = visit_any_severity signal [] routes
