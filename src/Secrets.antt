-- ===== src/Secrets.antt =====
-- crates/core/src/secrets.rs: references to secrets, and their resolution. A read of a store,
-- SHA-256 and the JSON library are parameters; times are seconds, and one call of `resolve` is at
-- one time.
pub mod Resolve
pub mod Frugal
use ops_signal.Prelude.{
  ℕ, zero, suc, String, Bool, true, false, not, ◌&&◌, ◌||◌, Option, none, some, List, [], ◌∷◌, ◌==◌,
  map, find, is_empty, is_none, is_some, has_char, split_once, rsplit_once, split_on, append,
  format, or_default, Result, ok, err, if◌then◌else◌,
}
use ops_signal.Signal.{SignalError}
use ops_signal.Chain.{config_err}
use ops_signal.Sources.{stores, missing_support}

-- `is_ref`.
unfoldable pub is_ref : String → Bool
is_ref name = has_char 58 name

-- `SecretRef`.
pub record SecretRef : Type 0 where
  pub scheme : String
  pub path : String
  pub field : Option String

-- `SecretRef::url`.
unfoldable pub url_of : SecretRef → String
url_of r = format (r.scheme ∷ ":" ∷ r.path ∷ [])

abbrev pub Name : Type 0
Name = String × String × String

abbrev pub filled_name : Name → Option Name
filled_name (p, s, v) =
    if not (is_empty p) && not (is_empty s) && not (is_empty v) then some (p, s, v) else none

-- The forms of `gcp_name`.
abbrev pub long_name : String → String → String → Name → Option Name
long_name projects secrets versions name =
    if projects == "projects" && secrets == "secrets" && versions == "versions"
    then filled_name name
    else none

unfoldable pub gcp_parts : List String → Option Name
gcp_parts (a ∷ p ∷ b ∷ s ∷ c ∷ v ∷ []) = long_name a b c (p, s, v)
gcp_parts (a ∷ p ∷ b ∷ s ∷ []) = long_name a b "versions" (p, s, "latest")
gcp_parts (p ∷ s ∷ v ∷ []) = filled_name (p, s, v)
gcp_parts (p ∷ s ∷ []) = filled_name (p, s, "latest")
gcp_parts _ = none

-- `gcp_name`.
unfoldable pub gcp_name : String → Option Name
gcp_name path = gcp_parts (split_on 47 path)

abbrev pub vault_name : Name → Option Name
vault_name (vault, name, version) =
    if not (is_empty vault) && not (is_empty name) then some (vault, name, version) else none

unfoldable pub azure_parts : List String → Option Name
azure_parts (vault ∷ name ∷ []) = vault_name (vault, name, "")
azure_parts (vault ∷ name ∷ version ∷ []) =
    if not (is_empty version) then vault_name (vault, name, version) else none
azure_parts _ = none

-- `azure_name`.
unfoldable pub azure_name : String → Option Name
azure_name path = azure_parts (split_on 47 path)

abbrev pub bad : SecretRef → String → Result SignalError (Unit {0})
bad r hint = err (config_err ("${" ∷ url_of r ∷ "}: expected " ∷ hint ∷ []))

-- `SecretRef::check_path`.
unfoldable pub check_path : SecretRef → Result SignalError (Unit {0})
check_path r =
    if r.scheme == "aws-sm" && is_empty r.path
    then bad r "aws-sm:<secret name or ARN>"
    else if r.scheme == "gcp-sm" && is_none (gcp_name r.path)
    then bad r
        "gcp-sm:<project>/<secret>[/<version>] or gcp-sm:projects/<p>/secrets/<s>/versions/<v>"
    else if r.scheme == "azure-kv" && is_none (azure_name r.path)
    then bad r "azure-kv:<vault>/<name>[/<version>]"
    else ok tt

abbrev pub checked : SecretRef → Result SignalError (Unit {0}) → Result SignalError SecretRef
checked r (err e) = err e
checked r (ok _) = ok r

-- The path and the field, from what stands after the last `#`.
unfoldable pub with_field :
    String → String → String → Option (String × String) → Result SignalError SecretRef
with_field name scheme rest none =
    checked (record { scheme = scheme; path = rest; field = none })
      (check_path (record { scheme = scheme; path = rest; field = none }))
with_field name scheme rest (some (path, field)) =
    if not (is_empty field)
    then checked (record { scheme = scheme; path = path; field = some field })
        (check_path (record { scheme = scheme; path = path; field = some field }))
    else err (config_err ("empty #field in ${" ∷ name ∷ "}" ∷ []))

unfoldable pub of_store :
    String → String → String → Option (String × String) → Result SignalError SecretRef
of_store name scheme rest none = err (
    config_err (
      "unknown secret store '" ∷ scheme ∷ "' in ${" ∷ name ∷ "}; use aws-sm, gcp-sm or azure-kv"
      ∷ []))
of_store name scheme rest (some store) = with_field name store.0 rest (rsplit_once 35 rest)

unfoldable pub of_parts : String → Option (String × String) → Result SignalError SecretRef
of_parts name none = err (config_err ("'" ∷ name ∷ "' is not a secret reference" ∷ []))
of_parts name (some (scheme, rest)) = of_store name scheme rest (find (λ s. s.0 == scheme) stores)

-- `SecretRef::parse`.
unfoldable pub parse_ref : String → Result SignalError SecretRef
parse_ref name = of_parts name (split_once 58 name)

-- `SecretRef::cloud`.
unfoldable pub cloud_name : SecretRef → String
cloud_name r =
    if r.scheme == "aws-sm" then "aws" else if r.scheme == "gcp-sm" then "gcp" else "azure"

-- `SecretRef::check_supported`, for a build with some clouds and some registered schemes.
unfoldable pub check_store :
    (String → Bool) → (String → Bool) → SecretRef → Result SignalError (Unit {0})
check_store built_in registered r =
    if built_in (cloud_name r) || registered r.scheme
    then ok tt
    else err (config_err ("${" ∷ url_of r ∷ "}: " ∷ missing_support r.scheme ∷ []))
