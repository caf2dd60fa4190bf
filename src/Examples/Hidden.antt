-- ===== src/Examples/Hidden.antt =====
-- Secrets (crates/core/src/secrets.rs): references, and a resolution with fields of one secret.
use ops_signal.Prelude.{
  String, some, List, [], ◌∷◌, ◌≡◌, refl, ◌==◌, IsUnique, Result, ok, err, if◌then◌else◌,
  split_once, rsplit_once, split_on, format,
}
use ops_signal.Signal.{SignalError, config}
use ops_signal.Secrets.{
  SecretRef, parse_ref, of_parts, of_store, with_field, check_path, gcp_name, gcp_parts, url_of,
}
use ops_signal.Secrets.Resolve.{
  Found, field_text, resolve, read_refs, cached_read, field_of, json_field, parse_refs,
}
use ops_signal.Secrets.Frugal.{resolve-IsUnique}

with_version : gcp_name "projects/p/secrets/s/versions/3" ≡ some ("p", "s", "3")
unfolding gcp_name gcp_parts split_on
with_version = refl

arn :
    parse_ref "aws-sm:arn:aws:prod/slack#url"
    ≡ ok (record { scheme = "aws-sm"; path = "arn:aws:prod/slack"; field = some "url" })
unfolding parse_ref of_parts of_store with_field check_path split_once rsplit_once
arn = refl

no_project :
    parse_ref "gcp-sm:s"
    ≡ err (
        config
          "${gcp-sm:s}: expected gcp-sm:<project>/<secret>[/<version>] or gcp-sm:projects/<p>/secrets/<s>/versions/<v>")
unfolding parse_ref of_parts of_store with_field check_path split_once rsplit_once gcp_name
    gcp_parts split_on url_of format
no_project = refl

abbrev names : List String
names = "aws-sm:a#user" ∷ "aws-sm:b" ∷ "aws-sm:a#port" ∷ []

abbrev read_value : String → Result SignalError String
read_value url = if url == "aws-sm:a" then ok "{}" else ok "plain"

abbrev get : String → String → Found
get value field = if field == "user" then field_text "ops" else field_text "8443"

abbrev supports_all : SecretRef → Result SignalError (Unit {0})
supports_all r = ok tt

two_reads :
    (resolve read_value get 300 9 supports_all names (record { cache = []; reads = [] })).0.reads
    ≡ "aws-sm:a" ∷ "aws-sm:b" ∷ []
unfolding resolve read_refs cached_read field_of json_field parse_refs parse_ref of_parts of_store
    with_field check_path split_once rsplit_once url_of format
two_reads = refl

resolve-IsUnique_example :
    IsUnique
      (resolve read_value get 300 9 supports_all names (record { cache = []; reads = [] })).0.reads
resolve-IsUnique_example = resolve-IsUnique read_value get 300 9 supports_all names []
