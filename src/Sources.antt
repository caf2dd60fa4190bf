-- ===== src/Sources.antt =====
-- `ConfigSource` of crates/core/src/source.rs: where a config comes from. `Sources/Parse.antt`
-- reads one from a text, `Sources/Join.antt` resolves what a file extends. A path is its text;
-- fetching is I/O.
pub mod Parse
pub mod Join
pub mod Queries
pub mod RoundTrip
pub mod Parts
pub mod Printable
pub mod Fetchers
pub mod Options
pub mod Siblings
pub mod Relative
pub mod Walks
pub mod Paths
use ops_signal.Prelude.{
  String, Bool, true, false, not, ◌&&◌, ◌||◌, Option, none, some, List, [], ◌∷◌, ◌++◌, ◌==◌,
  contains, has_prefix, append, format, find, or_default, Result, ok, err, if◌then◌else◌,
}
use ops_signal.Signal.{SignalError, config}
use ops_signal.Chain.{config_err}

-- `ConfigSource`.
pub data ConfigSource : Type 0 where
  local_file http : String → ConfigSource
  s3 gcs azure : String → String → ConfigSource
  app_config : String → String → String → ConfigSource
  azure_app_config : String → String → Option String → ConfigSource
  dynamo_db : String → String → Option String → Option String → ConfigSource
  firestore : String → String → Option String → Option String → ConfigSource
  cosmos : String → String → String → String → Option String → Option String → ConfigSource

-- `write_query`, from a separator; the pairs are names and optional values.
unfoldable pub write_query : String → List (String × Option String) → String
write_query sep [] = ""
write_query sep ((name, none) ∷ rest) = write_query sep rest
write_query sep ((name, some value) ∷ rest) =
    append sep (append name (append "=" (append value (write_query "&" rest))))

-- `impl Display for ConfigSource`.
unfoldable pub show_source : ConfigSource → String
show_source (local_file p) = p
show_source (http url) = url
show_source (s3 bucket key) = append "s3://" (append bucket (append "/" key))
show_source (gcs bucket object) = append "gs://" (append bucket (append "/" object))
show_source (azure container blob) = append "az://" (append container (append "/" blob))
show_source (app_config application environment profile) =
    append "appconfig://"
      (append application (append "/" (append environment (append "/" profile))))
show_source (azure_app_config store key label) =
    append "azappconfig://"
      (append (append store (append "/" key)) (write_query "?" (("label", label) ∷ [])))
show_source (dynamo_db table id key value) =
    append "dynamodb://" (
      append (append table (append "/" id))
        (write_query "?" (("key", key) ∷ ("value", value) ∷ [])))
show_source (firestore project document database field) = append "firestore://" (
    append (append project (append "/" document))
      (write_query "?" (("database", database) ∷ ("field", field) ∷ [])))
show_source (cosmos account database container id pk field) = append "cosmos://" (
    append
      (append account
        (append "/" (append database (append "/" (append container (append "/" id))))))
      (write_query "?" (("pk", pk) ∷ ("field", field) ∷ [])))

-- `ConfigSource::is_remote`.
unfoldable pub is_remote : ConfigSource → Bool
is_remote (local_file _) = false
is_remote _ = true

-- `ConfigSource::scheme`.
unfoldable pub scheme : ConfigSource → String
scheme (local_file _) = "file"
scheme (http url) = if has_prefix url "http://" then "http" else "https"
scheme (s3 _ _) = "s3"
scheme (gcs _ _) = "gs"
scheme (azure _ _) = "az"
scheme (app_config _ _ _) = "appconfig"
scheme (azure_app_config _ _ _) = "azappconfig"
scheme (dynamo_db _ _ _ _) = "dynamodb"
scheme (firestore _ _ _ _) = "firestore"
scheme (cosmos _ _ _ _ _ _) = "cosmos"

-- `CLOUD_SCHEMES`.
abbrev pub cloud_schemes : List (String × List String)
cloud_schemes =
    ("aws", "s3" ∷ "appconfig" ∷ "dynamodb" ∷ "aws-sm" ∷ [])
    ∷ ("gcp", "gs" ∷ "firestore" ∷ "gcp-sm" ∷ [])
    ∷ ("azure", "az" ∷ "azappconfig" ∷ "cosmos" ∷ "azure-kv" ∷ [])
    ∷ []

abbrev pub cloud_of : String → Option String
cloud_of name = elim (find (λ c. contains name c.1) cloud_schemes) [
  | none ↦ none
  | some c ↦ some c.0
]

-- `ConfigSource::cloud`.
unfoldable pub cloud : ConfigSource → Option String
cloud s = cloud_of (scheme s)

-- `STORES` of crates/core/src/secrets.rs: the schemes and names of the secret stores.
abbrev pub stores : List (String × String)
stores =
    ("aws-sm", "AWS Secrets Manager")
    ∷ ("gcp-sm", "GCP Secret Manager")
    ∷ ("azure-kv", "Azure Key Vault")
    ∷ []

abbrev what_is_read : String → Option (String × String) → String
what_is_read name (some store) = format (store.1 ∷ " secrets (" ∷ name ∷ ":)" ∷ [])
what_is_read name none = format (name ∷ ":// configs" ∷ [])

abbrev support_text : String → String → String
support_text what name = format (
    "this build cannot read " ∷ what ∷ "; install the " ∷ name ∷ " add-on: pip install 'opssignal["
    ∷ name ∷ "]' for Python, or a CLI or C library built with `--features " ∷ name ∷ "` (the `"
    ∷ name ∷ "` cargo feature of opssignal-core)" ∷ [])

-- `missing_support`.
unfoldable pub missing_support : String → String
missing_support name =
    support_text (what_is_read name (find (λ s. s.0 == name) stores))
      (or_default "aws" (cloud_of name))

-- `ConfigSource::check_supported`, for a build with some clouds and some registered schemes.
unfoldable pub check_supported :
    (String → Bool) → (String → Bool) → ConfigSource → Result SignalError (Unit {0})
check_supported built_in registered s = elim (cloud s) [
  | none ↦ ok tt
  | some c ↦
      if built_in c || registered (scheme s)
      then ok tt
      else err (config_err (show_source s ∷ ": " ∷ missing_support (scheme s) ∷ []))
]
