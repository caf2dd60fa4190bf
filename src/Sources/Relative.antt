-- ===== src/Sources/Relative.antt =====
-- Where `ConfigSource::join` of crates/core/src/source.rs leads.
use ops_signal.Prelude.{
  ◌%◌, String, true, false, not, ◌&&◌, ◌||◌, Option, none, List, [], ◌∷◌, ◌++◌, ◌≡◌, ◌⊎◌, refl, sym,
  ap, ◌∙◌, subst, arith, length, is_empty, trim, has_char, split_on, Result, ok, err, Bool-cases,
  inl, inr, ok-injective,
}
use ops_signal.Sources.{
  ConfigSource, local_file, http, s3, gcs, azure, app_config, azure_app_config, dynamo_db,
  firestore, cosmos, is_remote,
}
use ops_signal.Sources.Parse.{Parsed, parse_source}
use ops_signal.Sources.Join.{
  Component, root_dir, cur_dir, parent_dir, normal, components, normalize, parent, path_text,
  parse_joined, join_relative, keep_remote, is_whole, join_source,
}
use ops_signal.Sources.Paths.{arrive, arrive-normalize}
use ops_signal.Sources.Siblings.{
  IsSibling, join_key-IsSibling, flat_name_same, and_make-inv, a_document-inv,
}

-- The folder of a path: what stands before its last component.
abbrev pub IsFolder : List Component → List Component → Type 0
IsFolder folder parts =
    ((parts ≡ []) × (folder ≡ [])) ⊎ ((last : Component) × (parts ≡ folder ++ last ∷ []))

-- A path from the folder of another, without detours.
pub record IsFrom (path reference other : String) : Type 0 where
  pub folder : List Component
  pub is_folder : IsFolder folder (components path)
  pub parts : List Component
  pub parts_is : parts ≡ normalize (folder ++ components reference)
  pub same_place :
      (here : List String) → arrive parts here ≡ arrive (folder ++ components reference) here
  pub other_is : other ≡ path_text parts

-- What a relative reference of a source leads to: all but the key stays as it is, but for the
-- partition key of a Cosmos item.
pub data Leads (url_join : String → String → Result String String) (r : String)
    : ConfigSource → ConfigSource → Type 0 where
  to_file : {p q : String} → IsFrom p r q → Leads url_join r (local_file p) (local_file q)
  to_url :
      {base url : String} {s : ConfigSource}
      → url_join base r ≡ ok url
      → parse_source url ≡ ok s
      → Leads url_join r (http base) s
  to_s3 : {b k l : String} → IsSibling k r l → Leads url_join r (s3 b k) (s3 b l)
  to_gcs : {b k l : String} → IsSibling k r l → Leads url_join r (gcs b k) (gcs b l)
  to_azure : {b k l : String} → IsSibling k r l → Leads url_join r (azure b k) (azure b l)
  to_app_config : {a e p : String} → Leads url_join r (app_config a e p) (app_config a e r)
  to_azure_app_config :
      {store k l : String} {label : Option String}
      → IsSibling k r l
      → Leads url_join r (azure_app_config store k label) (azure_app_config store l label)
  to_dynamo_db :
      {table i : String} {key value : Option String}
      → Leads url_join r (dynamo_db table i key value) (dynamo_db table r key value)
  to_firestore :
      {project d e : String} {database field : Option String}
      → IsSibling d r e
      → length (split_on 47 e) % 2 ≡ 0
      → Leads url_join r (firestore project d database field) (firestore project e database field)
  to_cosmos :
      {a d c i : String} {pk field : Option String}
      → Leads url_join r (cosmos a d c i pk field) (cosmos a d c r none field)

parent-IsFolder : (parts : List Component) → IsFolder (parent parts) parts
unfolding parent
parent-IsFolder [] = inl (refl, refl)
parent-IsFolder (root_dir ∷ []) = inr (root_dir, refl)
parent-IsFolder (cur_dir ∷ []) = inr (cur_dir, refl)
parent-IsFolder (parent_dir ∷ []) = inr (parent_dir, refl)
parent-IsFolder (normal name ∷ []) = inr (normal name, refl)
parent-IsFolder (part ∷ next ∷ rest) = elim (parent-IsFolder (next ∷ rest)) [
  | inl (e, _) ↦ ground (arith, e)
  | inr (last, e) ↦ inr (last, ap (λ t. part ∷ t) e)
]

module _ (url_join : String → String → Result String String) where
  joined_url :
      (base r : String) (o : Result String String) (s : ConfigSource)
      → url_join base r ≡ o
      → parse_joined (http base) r o ≡ ok s
      → Leads url_join r (http base) s
  joined_url base r (err e) s h k = ground arith
  joined_url base r (ok url) s h k = to_url h k

  pub join_relative-Leads :
      (self : ConfigSource) (r : String) (s : ConfigSource)
      → join_relative url_join self r ≡ ok s
      → Leads url_join r self s
  unfolding join_relative
  join_relative-Leads (local_file p) r s h =
      subst (Leads url_join r (local_file p)) (ok-injective h) (
        to_file (record {
          folder = parent (components p);
          is_folder = parent-IsFolder (components p);
          parts = normalize (parent (components p) ++ components r);
          parts_is = refl;
          same_place = arrive-normalize (parent (components p) ++ components r);
          other_is = refl;
        }))
  join_relative-Leads (http u) r s h = joined_url u r (url_join u r) s refl h
  join_relative-Leads (s3 b k) r s h =
      let (l, o, e) = and_make-inv (s3 b) _ s h in
      subst (Leads url_join r (s3 b k)) e (to_s3 (join_key-IsSibling (s3 b k) r k l o))
  join_relative-Leads (gcs b k) r s h =
      let (l, o, e) = and_make-inv (gcs b) _ s h in
      subst (Leads url_join r (gcs b k)) e (to_gcs (join_key-IsSibling (gcs b k) r k l o))
  join_relative-Leads (azure b k) r s h =
      let (l, o, e) = and_make-inv (azure b) _ s h in
      subst (Leads url_join r (azure b k)) e (to_azure (join_key-IsSibling (azure b k) r k l o))
  join_relative-Leads (app_config a e p) r s h = elim (Bool-cases (is_empty r || has_char 47 r)) [
    | inl x ↦ ground (arith, x)
    | inr x ↦
        subst (Leads url_join r (app_config a e p)) (ok-injective (rw (x, join_relative) at h))
          to_app_config
  ]
  join_relative-Leads (azure_app_config t k v) r s h =
      let (l, o, e) = and_make-inv (λ n. azure_app_config t n v) _ s h in
      subst (Leads url_join r (azure_app_config t k v)) e
        (to_azure_app_config (join_key-IsSibling (azure_app_config t k v) r k l o))
  join_relative-Leads (dynamo_db t i k v) r s h =
      let (l, o, e) = and_make-inv (λ n. dynamo_db t n k v) _ s h in
      subst (Leads url_join r (dynamo_db t i k v))
        (ap (λ n. dynamo_db t n k v) (sym (flat_name_same (dynamo_db t i k v) r l o)) ∙ e)
        to_dynamo_db
  join_relative-Leads (firestore p d db f) r s h =
      let (l, o, n, e) = a_document-inv (firestore p d db f) r (λ m. firestore p m db f) _ s h in
      subst (Leads url_join r (firestore p d db f)) e
        (to_firestore (join_key-IsSibling (firestore p d db f) r d l o) n)
  join_relative-Leads (cosmos a d c i pk f) r s h =
      let (l, o, e) = and_make-inv (λ n. cosmos a d c n none f) _ s h in
      subst (Leads url_join r (cosmos a d c i pk f))
        (ap (λ n. cosmos a d c n none f) (sym (flat_name_same (cosmos a d c i pk f) r l o)) ∙ e)
        to_cosmos

  keep_remote-inv :
      (self : ConfigSource) (r : Parsed ConfigSource) (s : ConfigSource)
      → keep_remote self r ≡ ok s
      → (r ≡ ok s) × ((is_remote self && not (is_remote s)) ≡ false)
  keep_remote-inv self (err e) s h = ground arith
  keep_remote-inv self (ok t) s h = elim (Bool-cases (is_remote self && not (is_remote t))) [
    | inl e ↦ ground (arith, rw e at h)
    | inr e ↦ (
      rw e at h,
      subst (λ u. (is_remote self && not (is_remote u)) ≡ false) (ok-injective (rw e at h)) e,
    )
  ]

  -- Where a reference leads, whole or relative.
  pub data Reaches (r : String) (self s : ConfigSource) : Type 0 where
    whole : is_whole r ≡ true → parse_source r ≡ ok s → Reaches r self s
    relative : is_whole r ≡ false → Leads url_join r self s → Reaches r self s

  -- A source that `join` gives is the one that the trimmed reference names if that is a URL or an
  -- absolute path. Else, for a file, it is the path that the reference leads to from the file's
  -- folder, without detours; for an HTTP source, what the joined URL names. For all others it is of
  -- the same bucket, container, store or table, read the same way, but without the partition key of
  -- a Cosmos item: its key is what the reference's segments lead to from the key's folder, a
  -- profile or an item is the reference itself, and a Firestore document has an even number of
  -- segments. And a remote source never leads to a local file.
  pub join_source-Reaches :
      (self : ConfigSource) (reference : String) (s : ConfigSource)
      → join_source url_join self reference ≡ ok s
      → Reaches (trim reference) self s × (is_remote self ≡ true → is_remote s ≡ true)
  unfolding join_source
  join_source-Reaches self reference s h = elim (Bool-cases (is_whole (trim reference))) [
    | inl e ↦
        let (x, y) =
          keep_remote-inv self (parse_source (trim reference)) s (rw (e, join_source) at h) in
        (whole e x, λ k. ground (arith, rw k at y))
    | inr e ↦
        let (x, y) =
          keep_remote-inv self (join_relative url_join self (trim reference)) s
            (rw (e, join_source) at h) in
        (relative e (join_relative-Leads self (trim reference) s x), λ k. ground (arith, rw k at y))
  ]
