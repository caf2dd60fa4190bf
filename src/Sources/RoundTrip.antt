-- ===== src/Sources/RoundTrip.antt =====
-- What `Display` writes of a `ConfigSource` of crates/core/src/source.rs, `ConfigSource::parse`
-- reads.
use ops_signal.Prelude.{
  String, true, false, Option, none, some, ◌≡◌, refl, arith, is_empty, strip_prefix, has_prefix,
  contains_text, has_char, split_on, append, joined_at, split_once-joined_at, split_on_single,
  split_on-joined_at, ok, Option-cases, inl, inr,
}
use ops_signal.Sources.{
  ConfigSource, local_file, http, s3, gcs, azure, app_config, azure_app_config, dynamo_db,
  firestore, cosmos, show_source,
}
use ops_signal.Sources.Queries.{IsPart, IsValue, IsName, one_query, two_query}
use ops_signal.Sources.Parse.{
  bucket_of, split_bucket, host_of, is_loopback, parse_app_config, parse_azure_app_config,
  dynamo_item, parse_dynamo_db, names_document, firestore_document, parse_firestore, cosmos_item,
  parse_cosmos, parse_http, parse_path, parse_url,
}

-- The sources that a text can name, by the condition on their parts.
pub data IsPrintable : ConfigSource → Type 0 where
  of_file : {p : String} → contains_text "://" p ≡ false → IsPrintable (local_file p)
  of_https : (rest : String) → IsPrintable (http (append "https://" rest))
  of_http :
      (rest : String)
      → is_loopback (host_of rest) ≡ true
      → IsPrintable (http (append "http://" rest))
  of_s3 : {b k : String} → IsPart 47 b → is_empty k ≡ false → IsPrintable (s3 b k)
  of_gcs : {b k : String} → IsPart 47 b → is_empty k ≡ false → IsPrintable (gcs b k)
  of_azure : {b k : String} → IsPart 47 b → is_empty k ≡ false → IsPrintable (azure b k)
  of_app_config :
      {a e p : String} → IsPart 47 a → IsPart 47 e → IsPart 47 p → IsPrintable (app_config a e p)
  of_azure_app_config :
      {store key : String} {label : Option String}
      → IsPart 47 store
      → is_empty key ≡ false
      → has_char 63 (joined_at "/" store key) ≡ false
      → IsValue label
      → IsPrintable (azure_app_config store key label)
  of_dynamo_db :
      {table id : String} {key value : Option String}
      → IsPart 47 table
      → IsPart 47 id
      → has_char 63 (joined_at "/" table id) ≡ false
      → IsValue key
      → IsValue value
      → IsPrintable (dynamo_db table id key value)
  of_firestore :
      {project document : String} {database field : Option String}
      → IsPart 47 project
      → is_empty document ≡ false
      → names_document (split_on 47 document) ≡ true
      → has_char 63 (joined_at "/" project document) ≡ false
      → IsValue database
      → IsValue field
      → IsPrintable (firestore project document database field)
  of_cosmos :
      {a d c i : String} {pk field : Option String}
      → IsPart 47 a
      → IsPart 47 d
      → IsPart 47 c
      → IsPart 47 i
      → has_char 63 (joined_at "/" a (joined_at "/" d (joined_at "/" c i))) ≡ false
      → IsValue pk
      → IsValue field
      → IsPrintable (cosmos a d c i pk field)

-- A prefix that has a text in it.
has_prefix_longer :
    (t p s r : String) → strip_prefix p s ≡ some r → has_prefix p t ≡ true → has_prefix s t ≡ true
unfolding strip_prefix has_prefix
has_prefix_longer String.[] p s r h hp = refl
has_prefix_longer (String.◌∷◌ x t) String.[] s r h hp = ground arith
has_prefix_longer (String.◌∷◌ x t) (String.◌∷◌ c p) String.[] r h hp = ground arith
has_prefix_longer (String.◌∷◌ x t) (String.◌∷◌ c p) (String.◌∷◌ d s) r h hp =
    ground (arith, has_prefix_longer t p s r)

strip_contains :
    (t p s r : String)
    → strip_prefix p s ≡ some r
    → contains_text t p ≡ true
    → contains_text t s ≡ true
unfolding strip_prefix contains_text
strip_contains t String.[] s r h hp = ground arith
strip_contains t (String.◌∷◌ c p) String.[] r h hp = ground arith
strip_contains t (String.◌∷◌ c p) (String.◌∷◌ d s) r h hp =
    ground
      (arith, strip_contains t p s r, has_prefix_longer t (String.◌∷◌ c p) (String.◌∷◌ d s) r h)

strip_none :
    (p s : String)
    → contains_text "://" p ≡ true
    → contains_text "://" s ≡ false
    → strip_prefix p s ≡ none
strip_none p s hp hs = elim (Option-cases (strip_prefix p s)) [
  | inl h ↦ h
  | inr (r, h) ↦ ground (arith, strip_contains "://" p s r h hp)
]

split_bucket-joined_at :
    {b k : String} (raw : String)
    → IsPart 47 b
    → is_empty k ≡ false
    → split_bucket (joined_at "/" b k) raw ≡ ok (b, k)
unfolding split_bucket bucket_of
split_bucket-joined_at {b} {k} raw hb hk =
    rw (split_once-joined_at "/" b k hb.lacks, hb.filled, hk) refl

-- The names that the source writes.
plain-IsName : {n : String} → has_char 38 n ≡ false → has_char 61 n ≡ false → IsName n
plain-IsName h k = record { no_amp = h; no_equals = k }

-- `parse` after its `trim`.
pub parse_url-show_source : (s : ConfigSource) → IsPrintable s → parse_url (show_source s) ≡ ok s
unfolding has_char parse_url show_source strip_prefix contains_text parse_path parse_http
    parse_app_config parse_azure_app_config parse_dynamo_db dynamo_item parse_firestore
    firestore_document parse_cosmos cosmos_item
parse_url-show_source (local_file p) (of_file h) =
    rw
      (
        strip_none "s3://" p refl h,
        strip_none "gs://" p refl h,
        strip_none "az://" p refl h,
        strip_none "appconfig://" p refl h,
        strip_none "azappconfig://" p refl h,
        strip_none "dynamodb://" p refl h,
        strip_none "firestore://" p refl h,
        strip_none "cosmos://" p refl h,
        strip_none "https://" p refl h,
        strip_none "http://" p refl h,
        h,
      )
      refl
parse_url-show_source (http url) (of_https rest) = refl
parse_url-show_source (http url) (of_http rest h) = rw h refl
parse_url-show_source (s3 b k) (of_s3 hb hk) = rw (split_bucket-joined_at _ hb hk) refl
parse_url-show_source (gcs b k) (of_gcs hb hk) = rw (split_bucket-joined_at _ hb hk) refl
parse_url-show_source (azure b k) (of_azure hb hk) = rw (split_bucket-joined_at _ hb hk) refl
parse_url-show_source (app_config a e p) (of_app_config ha he hp) =
    rw
      (
        split_on-joined_at "/" a (joined_at "/" e p) ha.lacks,
        split_on-joined_at "/" e p he.lacks,
        split_on_single 47 p hp.lacks,
        ha.filled,
        he.filled,
        hp.filled,
      )
      refl
parse_url-show_source (azure_app_config store key label) (of_azure_app_config hs hk h hl) =
    rw (one_query (joined_at "/" store key) _ "label" label h (plain-IsName refl refl) hl)
      (rw (split_bucket-joined_at _ hs hk) refl)
parse_url-show_source (dynamo_db t i k v) (of_dynamo_db ht hi h hk hv) =
    rw
      (two_query (joined_at "/" t i) _ "key" "value" k v h (plain-IsName refl refl)
        (plain-IsName refl refl) refl hk hv)
      (rw (split_once-joined_at "/" t i ht.lacks, ht.filled, hi.filled, hi.lacks) refl)
parse_url-show_source (firestore p d db f) (of_firestore hp hd hn h hdb hf) =
    rw
      (two_query (joined_at "/" p d) _ "database" "field" db f h (plain-IsName refl refl)
        (plain-IsName refl refl) refl hdb hf)
      (rw (split_bucket-joined_at _ hp hd, hn) refl)
parse_url-show_source (cosmos a d c i pk f) (of_cosmos ha hd hc hi h hp hf) =
    rw
      (two_query (joined_at "/" a (joined_at "/" d (joined_at "/" c i))) _ "pk" "field" pk f h
        (plain-IsName refl refl) (plain-IsName refl refl) refl hp hf)
      (rw
        (
          split_on-joined_at "/" a (joined_at "/" d (joined_at "/" c i)) ha.lacks,
          split_on-joined_at "/" d (joined_at "/" c i) hd.lacks,
          split_on-joined_at "/" c i hc.lacks,
          split_on_single 47 i hi.lacks,
          ha.filled,
          hd.filled,
          hc.filled,
          hi.filled,
        )
        refl)
