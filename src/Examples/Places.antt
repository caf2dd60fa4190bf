-- ===== src/Examples/Places.antt =====
-- Config sources (crates/core/src/source.rs): their texts, what their references lead to, fetching.
use mathlib.Core.List.{reverse}
use ops_signal.Prelude.{
  String, true, false, none, some, List, [], ◌∷◌, ◌++◌, ◌≡◌, refl, ◌==◌, Result, ok, err, split_on,
  if◌then◌else◌, split_once, strip_prefix, has_prefix, contains_text, trim, format, join, All,
}
use ops_signal.Signal.{config}
use ops_signal.Sources.{
  ConfigSource, local_file, http, s3, azure_app_config, is_remote, show_source, write_query, scheme,
  cloud, check_supported,
}
use ops_signal.Sources.Parse.{
  parse_source, parse_url, parse_http, host_of, parse_path, parse_azure_app_config, parse_dynamo_db,
  split_query, read_pairs, set_value, split_bucket, bucket_of, parse_list,
}
use ops_signal.Sources.Printable.{parse_source-show_source}
use ops_signal.Sources.Join.{
  normal, parent_dir, cur_dir, join_source, join_relative, join_key, key_segments, components,
  normalize, push_normal, parent, path_text,
}
use ops_signal.Chain.{
  ChainError, Files, Built, Loaded, Walk, walk, visit_roots, visit, guard, open_file, enter,
  visit_parents, done,
}
use ops_signal.Sources.Options.{LoadOptions}
use ops_signal.Sources.Walks.{Layers, files_of, walk-is_remote}
use ops_signal.Sources.Paths.{arrive, IsTidy, normalize-IsTidy, normalize_detour}
use ops_signal.Sources.Relative.{Reaches, join_source-Reaches}
use ops_signal.Sources.Fetchers.{World, answered, no_reply, has_fetcher, registered_fetcher}

abbrev labelled : ConfigSource
labelled = azure_app_config "ops" "teams/a" (some "prod")

parse_labelled : parse_source "azappconfig://ops/teams/a?label=prod " ≡ ok labelled
unfolding parse_source parse_url strip_prefix trim parse_azure_app_config split_query read_pairs
    set_value split_bucket bucket_of split_once split_on
parse_labelled = refl

parse_source-show_source_example : parse_source (show_source labelled) ≡ ok labelled
unfolding show_source write_query trim
parse_source-show_source_example =
    parse_source-show_source "azappconfig://ops/teams/a?label=prod " labelled parse_labelled refl

-- No file is listed, and a parameter that is there twice.
no_file : parse_list " , " ≡ err (config "' , ' names no config file")
unfolding parse_list trim split_on format
no_file = refl

key_twice :
    parse_source "dynamodb://t/a?key=x&key=y"
    ≡ err (
        config
          "dynamodb://t/a?key=x&key=y: unexpected 'key=y' (allowed once each, with a value: key=, value=)")
unfolding parse_source parse_url strip_prefix trim parse_dynamo_db split_query read_pairs set_value
    split_once split_on format join
key_twice = refl

-- The host of a URL with a user is taken from the user.
user_is_host :
    parse_source "http://localhost:x@evil.test/a" ≡ ok (http "http://localhost:x@evil.test/a")
unfolding parse_source parse_url strip_prefix trim parse_http host_of split_once has_prefix
user_is_host = refl

-- References.
abbrev no_urls : String → String → Result String String
no_urls base r = err "no URLs here"

up_from_bucket :
    join_source no_urls (s3 "b" "teams/payments.yaml") "../default.yaml"
    ≡ ok (s3 "b" "default.yaml")
unfolding join_source is_remote join join_relative join_key key_segments split_on trim contains_text
    has_prefix strip_prefix
up_from_bucket = refl

out_of_bucket :
    join_source no_urls (s3 "b" "a.yaml") "../../x.yaml"
    ≡ err (config "s3://b/a.yaml: '../../x.yaml' points outside the bucket")
unfolding join_source is_remote join join_relative join_key key_segments split_on trim contains_text
    has_prefix strip_prefix show_source format
out_of_bucket = refl

local_from_remote :
    join_source no_urls (s3 "b" "a.yaml") "/etc/passwd"
    ≡ err (config "s3://b/a.yaml: a remote config cannot extend the local file /etc/passwd")
unfolding join_source is_remote join parse_source parse_url parse_path trim contains_text has_prefix
    strip_prefix show_source format
local_from_remote = refl

up_from_file :
    join_source no_urls (local_file "/etc/ops/teams/a.yaml") "../default.yaml"
    ≡ ok (local_file "/etc/ops/default.yaml")
unfolding join_source is_remote join join_relative components normalize push_normal parent path_text
    split_on trim contains_text has_prefix strip_prefix
up_from_file = refl

join_source-Reaches_example :
    Reaches no_urls (trim "../default.yaml") (s3 "b" "teams/payments.yaml") (s3 "b" "default.yaml")
    × (is_remote (s3 "b" "teams/payments.yaml") ≡ true → is_remote (s3 "b" "default.yaml") ≡ true)
join_source-Reaches_example =
    join_source-Reaches no_urls (s3 "b" "teams/payments.yaml") "../default.yaml"
      (s3 "b" "default.yaml") up_from_bucket

abbrev winding : String
winding = "./a/../../b/./c"

normalize-IsTidy_example :
    ((here : List String)
      → arrive (normalize (components winding)) here ≡ arrive (components winding) here)
    × IsTidy (reverse (normalize (components winding)))
    × (normalize (normalize (components winding)) ≡ normalize (components winding))
normalize-IsTidy_example = normalize-IsTidy winding

normalize_detour_example :
    (normalize ((parent_dir ∷ []) ++ (normal "a" ∷ parent_dir ∷ normal "b" ∷ []))
      ≡ normalize ((parent_dir ∷ []) ++ (normal "b" ∷ [])))
    × (normalize ((parent_dir ∷ []) ++ (cur_dir ∷ normal "b" ∷ []))
        ≡ normalize ((parent_dir ∷ []) ++ (normal "b" ∷ [])))
normalize_detour_example = normalize_detour (parent_dir ∷ []) (normal "b" ∷ []) "a"

-- A build with no cloud, and add-ons that echo the URL after their name.
abbrev no_clouds : World String
no_clouds = record {
  read_to_string = λ path. err "not found";
  get = λ url. no_reply "no network";
  is_built_in = λ c. false;
  read_cloud = λ s. err (config "no cloud");
  run = λ f url. answered (ok (format (f ∷ " " ∷ url ∷ [])));
  read_secret = λ url. err (config "no secrets");
}

-- A chain of two remote files, `b` below `a`.
abbrev text_layers : Layers String (Unit {0}) (List String)
text_layers = record {
  parents = λ text. if text == "extends b" then "b" ∷ [] else [];
  secret_refs = λ text. ok [];
  no_secrets = tt;
  resolve = λ names. ok tt;
  parse_layer = λ text v. ok text;
  secrets_digest = λ v. "";
  from_layers = λ ls. ok [];
}

abbrev no_cache : LoadOptions
no_cache = record { refresh = none; cache_dir = none }

abbrev bucket_files : Files ConfigSource String (Unit {0}) (List String)
bucket_files =
    files_of no_clouds (("s3", "new") ∷ []) text_layers no_urls (λ dir name. dir) (λ t. t) no_cache

abbrev built_text : String → Built String
built_text text = record { text = text; layer = text; secrets = "" }

abbrev load_text : ConfigSource → Result ChainError (Built String)
load_text s = ok (built_text (if show_source s == "s3://x/a" then "extends b" else "key: value"))

abbrev loaded_text : ConfigSource → String → Loaded ConfigSource String
loaded_text s text = record { source = s; text = text; secrets = ""; layer = text }

abbrev two_files : Walk ConfigSource String
two_files = record {
  stack = [];
  seen = "s3://x/b" ∷ "s3://x/a" ∷ [];
  order = loaded_text (s3 "x" "b") "key: value" ∷ loaded_text (s3 "x" "a") "extends b" ∷ [];
}

two_walked : walk bucket_files load_text (s3 "x" "a" ∷ []) ≡ some (ok two_files)
unfolding walk files_of visit_roots visit guard open_file enter visit_parents done show_source
    join_source join_relative join_key key_segments is_remote trim contains_text has_prefix
    strip_prefix split_on join check_supported scheme cloud has_fetcher registered_fetcher
two_walked = refl

walk-is_remote_example : All (λ f. is_remote f.source ≡ true) two_files.order
unfolding is_remote
walk-is_remote_example =
    walk-is_remote no_clouds (("s3", "new") ∷ []) text_layers no_urls (λ dir name. dir) (λ t. t)
      no_cache load_text (s3 "x" "a" ∷ []) two_files two_walked (refl, tt)
