-- ===== src/Sources/Parse.antt =====
-- `ConfigSource::parse` and `parse_list` of crates/core/src/source.rs.
use ops_signal.Prelude.{
  ℕ, zero, suc, ◌%◌, String, Bool, not, ◌&&◌, ◌||◌, Option, none, some, List, [], ◌∷◌, ◌==◌, map,
  keep, any, length, eqb, is_empty, is_none, or_default, trim, strip_prefix, has_prefix,
  contains_text, has_char, split_once, split_on, append, join, Result, ok, err, if◌then◌else◌,
}
use ops_signal.Signal.{SignalError}
use ops_signal.Chain.{config_err}
use ops_signal.Sources.{
  ConfigSource, local_file, http, s3, gcs, azure, app_config, azure_app_config, dynamo_db,
  firestore, cosmos,
}

abbrev pub Parsed : Type 0 → Type 0
Parsed A = Result SignalError A

-- `split_bucket`.
unfoldable pub bucket_of : String → Option (String × String) → Parsed (String × String)
bucket_of raw none =
    err (config_err (raw ∷ ": expected <scheme>://<bucket>/<path to signal.yaml>" ∷ []))
bucket_of raw (some (bucket, key)) =
    if not (is_empty bucket) && not (is_empty key)
    then ok (bucket, key)
    else err (config_err (raw ∷ ": expected <scheme>://<bucket>/<path to signal.yaml>" ∷ []))

unfoldable pub split_bucket : String → String → Parsed (String × String)
split_bucket rest raw = bucket_of raw (split_once 47 rest)

-- A parameter's value is put in its place, unless it is not allowed, there already, or empty.
unfoldable pub set_value :
    List String → String → String → List (Option String) → Option (List (Option String))
set_value [] name value vs = none
set_value (_ ∷ _) name value [] = none
set_value (a ∷ as') name value (v ∷ vs) =
    let rest = set_value as' name value vs in
    if a == name
    then (if is_none v && not (is_empty value) then some (some value ∷ vs) else none)
    else elim rest [ none ↦ none | some ws ↦ some (v ∷ ws) ]

abbrev pub name_and_value : String → String × String
name_and_value pair = or_default (pair, "") (split_once 61 pair)

-- The loop over the pairs of a query.
unfoldable pub read_pairs :
    List String → String → List String → List (Option String) → Parsed (List (Option String))
read_pairs allowed raw [] vs = ok vs
read_pairs allowed raw (pair ∷ pairs) vs =
    elim (set_value allowed (name_and_value pair).0 (name_and_value pair).1 vs) [
      | none ↦ err (
          config_err (
            raw
            ∷ ": unexpected '"
            ∷ pair
            ∷ "' (allowed once each, with a value: "
            ∷ join ", " (map (λ a. append a "=") allowed)
            ∷ ")"
            ∷ []))
      | some ws ↦ read_pairs allowed raw pairs ws
    ]

abbrev pub with_path :
    String → Parsed (List (Option String)) → Parsed (String × List (Option String))
with_path path (err e) = err e
with_path path (ok vs) = ok (path, vs)

-- `split_query`.
unfoldable pub split_query : String → String → List String → Parsed (String × List (Option String))
split_query rest raw allowed = elim (split_once 63 rest) [
  | none ↦ ok (rest, map (λ _. none) allowed)
  | some (path, query) ↦
      with_path path (read_pairs allowed raw (split_on 38 query) (map (λ _. none) allowed))
]

-- A place in the values of a query.
abbrev pub value_at : ℕ → List (Option String) → Option String
value_at i [] = none
value_at zero (v ∷ vs) = v
value_at (suc i) (v ∷ vs) = value_at i vs

abbrev pub all_filled : List String → Bool
all_filled parts = not (any (λ p. is_empty p) parts)

-- The host of an `http://` URL, and the ones that it may name.
unfoldable pub host_of : String → String
host_of rest =
    let authority = or_default (rest, "") (split_once 47 rest) in
    let unbracketed = (or_default (authority.0, "") (split_once 58 authority.0)).0 in
    if has_prefix authority.0 "["
    then elim (split_once 93 authority.0) [
      | some (inside, _) ↦ append inside "]"
      | none ↦ unbracketed
    ]
    else unbracketed

abbrev pub is_loopback : String → Bool
is_loopback host = host == "localhost" || host == "127.0.0.1" || host == "[::1]"

abbrev pub as_bucket :
    (String → String → ConfigSource) → Parsed (String × String) → Parsed ConfigSource
as_bucket make (err e) = err e
as_bucket make (ok (bucket, key)) = ok (make bucket key)

abbrev pub names_document : List String → Bool
names_document segments = eqb (length segments % 2) 0 && all_filled segments

-- `if let Some(rest) = raw.strip_prefix(…) { return … }`.
abbrev pub or_next :
    Option String → (String → Parsed ConfigSource) → Parsed ConfigSource → Parsed ConfigSource
or_next (some rest) here next = here rest
or_next none here next = next

-- What follows each scheme; `raw` is the whole text.
module _ (raw : String) where
  unfoldable pub parse_app_config : List String → Parsed ConfigSource
  parse_app_config (a ∷ e ∷ p ∷ []) =
      if all_filled (a ∷ e ∷ p ∷ [])
      then ok (app_config a e p)
      else err (
          config_err (
            raw ∷ ": expected appconfig://<application>/<environment>/<configuration profile>"
            ∷ []))
  parse_app_config _ = err (
      config_err
        (raw ∷ ": expected appconfig://<application>/<environment>/<configuration profile>" ∷ []))

  unfoldable pub parse_azure_app_config :
      Parsed (String × List (Option String)) → Parsed ConfigSource
  parse_azure_app_config (err e) = err e
  parse_azure_app_config (ok (path, vs)) =
      as_bucket (λ store key. azure_app_config store key (value_at 0 vs)) (split_bucket path raw)

  unfoldable pub dynamo_item : List (Option String) → Option (String × String) → Parsed ConfigSource
  dynamo_item vs none = err (config_err (raw ∷ ": expected dynamodb://<table>/<item id>" ∷ []))
  dynamo_item vs (some (table, id)) =
      if not (is_empty table) && not (is_empty id) && not (has_char 47 id)
      then ok (dynamo_db table id (value_at 0 vs) (value_at 1 vs))
      else err (config_err (raw ∷ ": expected dynamodb://<table>/<item id>" ∷ []))

  unfoldable pub parse_dynamo_db : Parsed (String × List (Option String)) → Parsed ConfigSource
  parse_dynamo_db (err e) = err e
  parse_dynamo_db (ok (path, vs)) = dynamo_item vs (split_once 47 path)

  unfoldable pub firestore_document :
      List (Option String) → Parsed (String × String) → Parsed ConfigSource
  firestore_document vs (err e) = err e
  firestore_document vs (ok (project, document)) =
      if names_document (split_on 47 document)
      then ok (firestore project document (value_at 0 vs) (value_at 1 vs))
      else err (config_err (raw ∷ ": expected firestore://<project>/<collection>/<document>" ∷ []))

  unfoldable pub parse_firestore : Parsed (String × List (Option String)) → Parsed ConfigSource
  parse_firestore (err e) = err e
  parse_firestore (ok (path, vs)) = firestore_document vs (split_bucket path raw)

  unfoldable pub cosmos_item : List (Option String) → List String → Parsed ConfigSource
  cosmos_item vs (a ∷ d ∷ c ∷ i ∷ []) =
      if all_filled (a ∷ d ∷ c ∷ i ∷ [])
      then ok (cosmos a d c i (value_at 0 vs) (value_at 1 vs))
      else err
          (config_err (raw ∷ ": expected cosmos://<account>/<database>/<container>/<item id>" ∷ []))
  cosmos_item vs _ =
      err (config_err (raw ∷ ": expected cosmos://<account>/<database>/<container>/<item id>" ∷ []))

  unfoldable pub parse_cosmos : Parsed (String × List (Option String)) → Parsed ConfigSource
  parse_cosmos (err e) = err e
  parse_cosmos (ok (path, vs)) = cosmos_item vs (split_on 47 path)

  unfoldable pub parse_http : String → Parsed ConfigSource
  parse_http rest =
      if is_loopback (host_of rest)
      then ok (http raw)
      else err
          (config_err (raw ∷ ": plain http:// is only allowed for localhost; use https://" ∷ []))

  -- The text has no scheme that is known.
  unfoldable pub parse_path : Parsed ConfigSource
  parse_path =
      if contains_text "://" raw
      then err (
          config_err (
            raw ∷ ": unsupported scheme (use a local path, https://, s3://, gs://, az://, "
            ∷ "appconfig://, azappconfig://, dynamodb://, firestore:// or cosmos://)" ∷ []))
      else ok (local_file raw)

  unfoldable pub parse_url : Parsed ConfigSource
  parse_url =
      or_next (strip_prefix "s3://" raw) (λ rest. as_bucket s3 (split_bucket rest raw))
        (or_next (strip_prefix "gs://" raw) (λ rest. as_bucket gcs (split_bucket rest raw))
          (or_next (strip_prefix "az://" raw) (λ rest. as_bucket azure (split_bucket rest raw))
            (or_next (strip_prefix "appconfig://" raw) (λ rest. parse_app_config (split_on 47 rest))
              (or_next (strip_prefix "azappconfig://" raw)
                (λ rest. parse_azure_app_config (split_query rest raw ("label" ∷ [])))
                (or_next (strip_prefix "dynamodb://" raw)
                  (λ rest. parse_dynamo_db (split_query rest raw ("key" ∷ "value" ∷ [])))
                  (or_next (strip_prefix "firestore://" raw)
                    (λ rest. parse_firestore (split_query rest raw ("database" ∷ "field" ∷ [])))
                    (or_next (strip_prefix "cosmos://" raw)
                      (λ rest. parse_cosmos (split_query rest raw ("pk" ∷ "field" ∷ [])))
                      (or_next (strip_prefix "https://" raw) (λ rest. ok (http raw))
                        (or_next (strip_prefix "http://" raw) parse_http parse_path)))))))))

-- `ConfigSource::parse`.
unfoldable pub parse_source : String → Parsed ConfigSource
parse_source text = parse_url (trim text)

-- `collect` of results.
abbrev pub collect {ℓ} : {A : Type ℓ} → List (Result SignalError A) → Result SignalError (List A)
collect [] = ok []
collect (err e ∷ rs) = err e
collect (ok a ∷ rs) = elim (collect rs) [ err e ↦ err e | ok as' ↦ ok (a ∷ as') ]

-- `ConfigSource::parse_list`.
abbrev pub some_source : String → Parsed (List ConfigSource) → Parsed (List ConfigSource)
some_source raw (err e) = err e
some_source raw (ok []) = err (config_err ("'" ∷ raw ∷ "' names no config file" ∷ []))
some_source raw (ok (s ∷ ss)) = ok (s ∷ ss)

unfoldable pub parse_list : String → Parsed (List ConfigSource)
parse_list raw =
    some_source raw
      (collect (map parse_source (keep (λ s. not (is_empty s)) (map trim (split_on 44 raw)))))
