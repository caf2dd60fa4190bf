-- ===== src/Sources/Printable.antt =====
-- Every `ConfigSource` that `parse` of crates/core/src/source.rs reads can be written and read
-- again.
use ops_signal.Prelude.{
  String, false, not, ◌&&◌, Option, List, [], ◌∷◌, ◌≡◌, refl, sym, ap, ◌∙◌, subst, arith, All,
  is_empty, trim, strip_prefix, strip_prefix-eq, contains_text, has_char, split_once, split_on,
  split_once-lacks, split_once-lacks_other, split_on-lacks, split_on-lacks_other, append,
  ok-injective, ok, err, Bool-cases, Option-cases, inl, inr,
}
use ops_signal.Sources.{ConfigSource, http, s3, gcs, azure, azure_app_config, show_source}
use ops_signal.Sources.Queries.{IsPart, IsValue}
use ops_signal.Sources.Parse.{
  Parsed, split_bucket, split_query, value_at, all_filled, host_of, is_loopback, as_bucket,
  parse_app_config, parse_azure_app_config, dynamo_item, parse_dynamo_db, names_document,
  firestore_document, parse_firestore, cosmos_item, parse_cosmos, parse_http, parse_path, or_next,
  parse_url, parse_source,
}
use ops_signal.Sources.RoundTrip.{
  IsPrintable, of_file, of_https, of_http, of_s3, of_gcs, of_azure, of_app_config,
  of_azure_app_config, of_dynamo_db, of_firestore, of_cosmos, parse_url-show_source,
}
use ops_signal.Sources.Parts.{
  to_part, IsSplit, split_bucket-IsSplit, as_bucket-inv, IsQuery, split_query-IsQuery,
  value_at-IsValue, joined_lacks, split_lacks,
}

-- What each branch of `parse` reads.
bucket-IsPrintable :
    (make : String → String → ConfigSource) (rest raw : String) (s : ConfigSource)
    → ((b k : String) → IsPart 47 b → is_empty k ≡ false → IsPrintable (make b k))
    → as_bucket make (split_bucket rest raw) ≡ ok s
    → IsPrintable s
bucket-IsPrintable make rest raw s f h =
    let (b, k, e, x) = as_bucket-inv make (split_bucket rest raw) s h in
    let i = split_bucket-IsSplit rest raw b k e in subst IsPrintable x (f b k i.first i.filled)

app_config-IsPrintable :
    (raw : String) (parts : List String) (s : ConfigSource)
    → All (λ p. has_char 47 p ≡ false) parts
    → parse_app_config raw parts ≡ ok s
    → IsPrintable s
unfolding parse_app_config
app_config-IsPrintable raw [] s l h = ground arith
app_config-IsPrintable raw (a ∷ []) s l h = ground arith
app_config-IsPrintable raw (a ∷ e ∷ []) s l h = ground arith
app_config-IsPrintable raw (a ∷ e ∷ p ∷ q ∷ rest) s l h = ground arith
app_config-IsPrintable raw (a ∷ e ∷ p ∷ []) s l h =
    elim (Bool-cases (all_filled (a ∷ e ∷ p ∷ []))) [
      | inl k ↦ subst IsPrintable (ok-injective (rw (k, parse_app_config) at h)) (
          of_app_config (to_part (ground arith) l.0) (to_part (ground arith) l.1.0)
            (to_part (ground arith) l.1.1.0))
      | inr k ↦ ground (arith, k)
    ]

azure_app_config-IsPrintable :
    (raw : String) (r : Parsed (String × List (Option String))) (s : ConfigSource)
    → ((path : String) (vs : List (Option String)) → r ≡ ok (path, vs) → IsQuery path vs)
    → parse_azure_app_config raw r ≡ ok s
    → IsPrintable s
unfolding parse_azure_app_config
azure_app_config-IsPrintable raw (err e) s q h = ground arith
azure_app_config-IsPrintable raw (ok (path, vs)) s q h =
    let (b, k, e, x) =
      as_bucket-inv (λ store key. azure_app_config store key (value_at 0 vs))
        (split_bucket path raw) s h in
    let i = split_bucket-IsSplit path raw b k e in
    let query = q path vs refl in
    subst IsPrintable x (
      of_azure_app_config i.first i.filled (split_lacks i query.lacks)
        (value_at-IsValue 0 vs query.values))

dynamo_item-IsPrintable :
    (raw path : String) (vs : List (Option String)) (s : ConfigSource)
    → IsQuery path vs
    → dynamo_item raw vs (split_once 47 path) ≡ ok s
    → IsPrintable s
unfolding dynamo_item
dynamo_item-IsPrintable raw path vs s q h = elim (Option-cases (split_once 47 path)) [
  | inl e ↦ ground (arith, e)
  | inr (p, e) ↦
      elim (Bool-cases (not (is_empty p.0) && not (is_empty p.1) && not (has_char 47 p.1))) [
        | inl k ↦
            let (x, y) = split_once-lacks_other 47 63 path p.0 p.1 e q.lacks in
            subst IsPrintable (ok-injective (rw (e, k, dynamo_item) at h)) (
              of_dynamo_db (to_part (ground arith) (split_once-lacks 47 path p.0 p.1 e))
                (to_part (ground arith) (ground arith)) (joined_lacks _ _ x y)
                (value_at-IsValue 0 vs q.values) (value_at-IsValue 1 vs q.values))
        | inr k ↦ ground (arith, e, k)
      ]
]

firestore_document-IsPrintable :
    (raw path : String) (vs : List (Option String)) (r : Parsed (String × String))
    (s : ConfigSource)
    → IsQuery path vs
    → ((b k : String) → r ≡ ok (b, k) → IsSplit path b k)
    → firestore_document raw vs r ≡ ok s
    → IsPrintable s
unfolding firestore_document
firestore_document-IsPrintable raw path vs (err e) s q f h = ground arith
firestore_document-IsPrintable raw path vs (ok (b, k)) s q f h =
    elim (Bool-cases (names_document (split_on 47 k))) [
      | inl e ↦
          let i = f b k refl in
          subst IsPrintable (ok-injective (rw (e, firestore_document) at h)) (
            of_firestore i.first i.filled e (split_lacks i q.lacks) (value_at-IsValue 0 vs q.values)
              (value_at-IsValue 1 vs q.values))
      | inr e ↦ ground (arith, e)
    ]

cosmos_item-IsPrintable :
    (raw : String) (vs : List (Option String)) (parts : List String) (s : ConfigSource)
    → All IsValue vs
    → All (λ p. has_char 47 p ≡ false) parts
    → All (λ p. has_char 63 p ≡ false) parts
    → cosmos_item raw vs parts ≡ ok s
    → IsPrintable s
unfolding cosmos_item
cosmos_item-IsPrintable raw vs [] s q l m h = ground arith
cosmos_item-IsPrintable raw vs (a ∷ []) s q l m h = ground arith
cosmos_item-IsPrintable raw vs (a ∷ d ∷ []) s q l m h = ground arith
cosmos_item-IsPrintable raw vs (a ∷ d ∷ c ∷ []) s q l m h = ground arith
cosmos_item-IsPrintable raw vs (a ∷ d ∷ c ∷ i ∷ j ∷ rest) s q l m h = ground arith
cosmos_item-IsPrintable raw vs (a ∷ d ∷ c ∷ i ∷ []) s q l m h =
    elim (Bool-cases (all_filled (a ∷ d ∷ c ∷ i ∷ []))) [
      | inl k ↦ subst IsPrintable (ok-injective (rw (k, cosmos_item) at h)) (
          of_cosmos (to_part (ground arith) l.0) (to_part (ground arith) l.1.0)
            (to_part (ground arith) l.1.1.0) (to_part (ground arith) l.1.1.1.0)
            (joined_lacks _ _ m.0 (joined_lacks _ _ m.1.0 (joined_lacks _ _ m.1.1.0 m.1.1.1.0)))
            (value_at-IsValue 0 vs q) (value_at-IsValue 1 vs q))
      | inr k ↦ ground (arith, k)
    ]

-- What a parser with a query is given.
abbrev Reads : Parsed (String × List (Option String)) → Type 0
Reads r = (path : String) (vs : List (Option String)) → r ≡ ok (path, vs) → IsQuery path vs

dynamo_db-IsPrintable :
    (raw : String) (r : Parsed (String × List (Option String))) (s : ConfigSource)
    → Reads r
    → parse_dynamo_db raw r ≡ ok s
    → IsPrintable s
unfolding parse_dynamo_db
dynamo_db-IsPrintable raw (err e) s q h = ground arith
dynamo_db-IsPrintable raw (ok (path, vs)) s q h =
    dynamo_item-IsPrintable raw path vs s (q path vs refl) h

firestore-IsPrintable :
    (raw : String) (r : Parsed (String × List (Option String))) (s : ConfigSource)
    → Reads r
    → parse_firestore raw r ≡ ok s
    → IsPrintable s
unfolding parse_firestore
firestore-IsPrintable raw (err e) s q h = ground arith
firestore-IsPrintable raw (ok (path, vs)) s q h =
    firestore_document-IsPrintable raw path vs (split_bucket path raw) s (q path vs refl)
      (split_bucket-IsSplit path raw) h

cosmos-IsPrintable :
    (raw : String) (r : Parsed (String × List (Option String))) (s : ConfigSource)
    → Reads r
    → parse_cosmos raw r ≡ ok s
    → IsPrintable s
unfolding parse_cosmos
cosmos-IsPrintable raw (err e) s q h = ground arith
cosmos-IsPrintable raw (ok (path, vs)) s q h =
    let i = q path vs refl in
    cosmos_item-IsPrintable raw vs (split_on 47 path) s i.values (split_on-lacks 47 path)
      (split_on-lacks_other 47 63 path i.lacks) h

next_step :
    (prefix raw : String) {here : String → Parsed ConfigSource} {next : Parsed ConfigSource}
    (s : ConfigSource)
    → ((rest : String) → raw ≡ append prefix rest → here rest ≡ ok s → IsPrintable s)
    → (next ≡ ok s → IsPrintable s)
    → or_next (strip_prefix prefix raw) here next ≡ ok s
    → IsPrintable s
next_step prefix raw {here} {next} s f g h = elim (Option-cases (strip_prefix prefix raw)) [
  | inl e ↦ g (rw e at h)
  | inr (rest, e) ↦ f rest (strip_prefix-eq prefix raw rest e) (rw e at h)
]

http-IsPrintable :
    (raw rest : String) (s : ConfigSource)
    → raw ≡ append "http://" rest
    → parse_http raw rest ≡ ok s
    → IsPrintable s
unfolding parse_http
http-IsPrintable raw rest s e h = elim (Bool-cases (is_loopback (host_of rest))) [
  | inl k ↦
      subst IsPrintable (ok-injective (rw (k, parse_http) at h))
        (subst (λ t. IsPrintable (http t)) (sym e) (of_http rest k))
  | inr k ↦ ground (arith, k)
]

path-IsPrintable : (raw : String) (s : ConfigSource) → parse_path raw ≡ ok s → IsPrintable s
unfolding parse_path
path-IsPrintable raw s h = elim (Bool-cases (contains_text "://" raw)) [
  | inl k ↦ ground (arith, k)
  | inr k ↦ subst IsPrintable (ok-injective (rw (k, parse_path) at h)) (of_file k)
]

read_query : (rest raw : String) (allowed : List String) → Reads (split_query rest raw allowed)
read_query rest raw allowed = split_query-IsQuery rest raw allowed

-- The second half of the schemes.
late-IsPrintable :
    (raw : String) (s : ConfigSource)
    → or_next
        (strip_prefix "cosmos://" raw)
        (λ rest. parse_cosmos raw (split_query rest raw ("pk" ∷ "field" ∷ [])))
        (or_next
          (strip_prefix "https://" raw)
          (λ rest. ok (http raw))
          (or_next (strip_prefix "http://" raw) (parse_http raw) (parse_path raw)))
      ≡ ok s
    → IsPrintable s
late-IsPrintable raw s =
    next_step "cosmos://" raw s
      (λ rest _. cosmos-IsPrintable raw _ s (read_query rest raw ("pk" ∷ "field" ∷ [])))
      (next_step "https://" raw s
        (λ rest e h.
          subst IsPrintable (ok-injective h)
            (subst (λ t. IsPrintable (http t)) (sym e) (of_https rest)))
        (next_step "http://" raw s (λ rest e. http-IsPrintable raw rest s e)
          (path-IsPrintable raw s)))

pub parse_url-IsPrintable : (raw : String) (s : ConfigSource) → parse_url raw ≡ ok s → IsPrintable s
unfolding parse_url
parse_url-IsPrintable raw s =
    next_step "s3://" raw s (λ rest _. bucket-IsPrintable s3 rest raw s (λ b k. of_s3))
      (next_step "gs://" raw s (λ rest _. bucket-IsPrintable gcs rest raw s (λ b k. of_gcs))
        (next_step "az://" raw s (λ rest _. bucket-IsPrintable azure rest raw s (λ b k. of_azure))
          (next_step "appconfig://" raw s
            (λ rest _. app_config-IsPrintable raw (split_on 47 rest) s (split_on-lacks 47 rest))
            (next_step "azappconfig://" raw s
              (λ rest _. azure_app_config-IsPrintable raw _ s (read_query rest raw ("label" ∷ [])))
              (next_step "dynamodb://" raw s
                (λ rest _.
                  dynamo_db-IsPrintable raw _ s (read_query rest raw ("key" ∷ "value" ∷ [])))
                (next_step "firestore://" raw s
                  (λ rest _.
                    firestore-IsPrintable raw _ s (read_query rest raw ("database" ∷ "field" ∷ [])))
                  (late-IsPrintable raw s)))))))

-- What `parse` reads of a text is written as a text, and unless that text begins or ends with a
-- blank, `parse` reads the same source of it: nothing is lost, no part moves into another.
pub parse_source-show_source :
    (raw : String) (s : ConfigSource)
    → parse_source raw ≡ ok s
    → trim (show_source s) ≡ show_source s
    → parse_source (show_source s) ≡ ok s
unfolding parse_source
parse_source-show_source raw s h t =
    ap parse_url t ∙ parse_url-show_source s (parse_url-IsPrintable (trim raw) s h)
