-- ===== src/Config.antt =====
-- The checks of crates/core/src/config.rs on the routes of a config: `provider_names` and
-- `check_routes`. Of a provider's own settings only their presence is modelled here.
pub mod Checks
pub mod Planned
use ops_signal.Prelude.{
  ℕ, String, Bool, true, false, not, ◌&&◌, ◌||◌, Option, none, some, List, [], ◌∷◌, ◌++◌, eqb, null,
  find, contains, format, join, decimal, Result, ok, err, if◌then◌else◌,
}
use ops_signal.Signal.{SignalError}
use ops_signal.Window.{Window}
use ops_signal.Routing.{Route, RateLimit}
use ops_signal.Groups.Fields.{group_fields, is_group_field}
use ops_signal.Chain.{config_err}

-- `ProvidersConfig`: which providers are configured.
pub record ProvidersConfig : Type 0 where
  pub slack : Bool
  pub webhook : Bool
  pub pagerduty : Bool
  pub teams : Bool
  pub opsgenie : Bool
  pub email : Bool

abbrev pub name_if : Bool → String → List String
name_if present name = if present then name ∷ [] else []

-- `Config::provider_names`.
unfoldable pub provider_names : ProvidersConfig → List String
provider_names p =
    "console"
    ∷ (name_if p.slack "slack"
        ++ (name_if p.webhook "webhook"
            ++ (name_if p.pagerduty "pagerduty"
                ++ (name_if p.teams "teams"
                    ++ (name_if p.opsgenie "opsgenie" ++ name_if p.email "email")))))

-- Where a route stands: its file, if there are several, and its index there.
abbrev pub Origin : Type 0
Origin = Option String × ℕ

abbrev pub place : Origin → String
place (none, i) = format ("routes[" ∷ decimal i ∷ "]" ∷ [])
place (some file, i) = format (file ∷ ": routes[" ∷ decimal i ∷ "]" ∷ [])

abbrev pub is_zero : Option Window → Bool
is_zero none = false
is_zero (some w) = eqb w.secs 0

abbrev pub is_empty_limit : Option RateLimit → Bool
is_empty_limit none = false
is_empty_limit (some limit) = eqb limit.max 0 || eqb limit.per.secs 0

abbrev pub fields_of : Option (List String) → List String
fields_of none = []
fields_of (some fields) = fields

-- The loops over the fields and the providers of a route, by the first that is not allowed.
abbrev pub bad_field : Route → Option String
bad_field route = find (λ f. not (is_group_field f)) (fields_of route.group_by)

abbrev pub unknown_provider : List String → Route → Option String
unknown_provider known route = find (λ name. not (contains name known)) route.providers

unfoldable pub check_providers :
    List String → String → Option String → Result SignalError (Unit {0})
check_providers known at none = ok tt
check_providers known at (some name) = err (
    config_err (
      at
      ∷ " references provider '"
      ∷ name
      ∷ "', which is not configured under providers (configured: "
      ∷ join ", " known
      ∷ ")"
      ∷ []))

unfoldable pub check_fields :
    String → Option String → Result SignalError (Unit {0}) → Result SignalError (Unit {0})
check_fields at none next = next
check_fields at (some field) next = err (
    config_err (
      at
      ∷ ": cannot group_by '"
      ∷ field
      ∷ "' (use one of "
      ∷ join ", " group_fields
      ∷ ", or metadata.<key>)"
      ∷ []))

-- The body of the loop over the routes.
unfoldable pub check_route : List String → String → Route → Result SignalError (Unit {0})
check_route known at route =
    if null route.providers
    then err (config_err (at ∷ " lists no providers" ∷ []))
    else if is_zero route.dedup
    then err (config_err (at ∷ ": dedup must be longer than 0s" ∷ []))
    else if is_empty_limit route.rate_limit
    then err (config_err (at ∷ ": rate_limit needs max and per above 0" ∷ []))
    else if is_zero route.group_wait
    then err (config_err (at ∷ ": group_wait must be longer than 0s" ∷ []))
    else check_fields at (bad_field route) (check_providers known at (unknown_provider known route))

abbrev pub and_next :
    Result SignalError (Unit {0}) → Result SignalError (Unit {0}) → Result SignalError (Unit {0})
and_next (err e) next = err e
and_next (ok _) next = next

-- `Config::check_routes`, on the routes with where each stands.
unfoldable pub check_routes : List String → List (Route × Origin) → Result SignalError (Unit {0})
check_routes known [] = ok tt
check_routes known ((route, origin) ∷ rest) =
    and_next (check_route known (place origin) route) (check_routes known rest)
