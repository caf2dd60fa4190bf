-- ===== src/Sources/Fetchers.antt =====
-- Fetching a `ConfigSource` of crates/core/src/source.rs: the registry of the add-ons' fetchers,
-- and who reads a source. The disk, the network and the code of a cloud are parameters.
use ops_signal.Prelude.{
  ℕ, String, Bool, true, false, not, ◌&&◌, Option, none, some, List, [], ◌∷◌, ◌==◌, ◌≡◌, refl,
  subst, arith, find, keep, is_some, split_once, Result, ok, err, if◌then◌else◌, any, leb,
  Bool-cases, has_prefix, Option-cases, some-injective, inl, inr,
}
use ops_signal.Signal.{config}
use ops_signal.Chain.{config_err}
use ops_signal.Chain.Load.{message}
use ops_signal.Sources.{
  ConfigSource, local_file, http, s3, gcs, azure, app_config, azure_app_config, dynamo_db,
  firestore, cosmos, show_source, scheme, cloud, cloud_schemes, stores, missing_support,
  check_supported,
}
use ops_signal.Sources.Parse.{Parsed, parse_source}

-- The fetchers by their scheme.
module _ {F : Type 0} where
  -- `HashMap::insert` of `register_fetcher`.
  unfoldable pub register_fetcher : String → F → List (String × F) → List (String × F)
  register_fetcher name f rs = (name, f) ∷ keep (λ r. not (r.0 == name)) rs

  -- `registered_fetcher`.
  unfoldable pub registered_fetcher : String → List (String × F) → Option F
  registered_fetcher name rs = elim (find (λ r. r.0 == name) rs) [ none ↦ none | some r ↦ some r.1 ]

  -- `has_fetcher`.
  unfoldable pub has_fetcher : List (String × F) → String → Bool
  has_fetcher rs name = is_some (registered_fetcher name rs)

  abbrev pub register_all : F → List String → List (String × F) → List (String × F)
  register_all f [] rs = rs
  register_all f (name ∷ names) rs = register_all f names (register_fetcher name f rs)

  abbrev pub register_clouds :
      String → F → List (String × List String) → List (String × F) → List (String × F)
  register_clouds name f [] rs = rs
  register_clouds name f (c ∷ cs) rs =
      register_clouds name f cs (if c.0 == name then register_all f c.1 rs else rs)

  -- `register_cloud_fetcher`.
  unfoldable pub register_cloud_fetcher : String → F → List (String × F) → List (String × F)
  register_cloud_fetcher name f rs = register_clouds name f cloud_schemes rs

-- What comes of an add-on's fetch on a thread of its own.
pub data Answer : Type 0 where
  no_thread : String → Answer
  answered : Result String String → Answer
  lost timed_out : Answer

unfoldable pub of_answer : Answer → Parsed String
of_answer (no_thread e) = err (config_err ("cannot start fetch thread: " ∷ e ∷ []))
of_answer (answered (ok text)) = ok text
of_answer (answered (err e)) = err (config e)
of_answer lost = err (config "the add-on fetcher failed without an answer")
of_answer timed_out = err (config "timed out after 20s")

-- What comes of a `GET`.
pub data Reply : Type 0 where
  no_reply : String → Reply
  replied : ℕ → String → Result String String → Reply

-- `fetch_http`, with `StatusCode::is_success`; the status is shown as the text beside it.
unfoldable pub fetch_http : Reply → Parsed String
fetch_http (no_reply e) = err (config e)
fetch_http (replied status shown body) =
    if not (leb 200 status && leb status 299)
    then err (config_err ("server returned " ∷ shown ∷ []))
    else elim body [ ok text ↦ ok text | err e ↦ err (config e) ]

-- The world that fetching asks: the disk, the network, the clouds of this build with their code,
-- and an add-on's fetcher on a URL.
pub record World (F : Type 0) : Type 0 where
  pub read_to_string : String → Result String String
  pub get : String → Reply
  pub is_built_in : String → Bool
  pub read_cloud : ConfigSource → Parsed String
  pub run : F → String → Answer
  pub read_secret : String → Parsed String

module _ {F : Type 0} (world : World F) (registry : List (String × F)) where
  -- `fetch_external`.
  unfoldable pub fetch_external : String → String → Parsed String
  fetch_external name url = elim (registered_fetcher name registry) [
    | none ↦ err (config (missing_support name))
    | some f ↦ of_answer (world.run f url)
  ]

  -- `ConfigSource::fetch_cloud`: a cloud of this build, or its add-on.
  unfoldable pub fetch_cloud : ConfigSource → Parsed String
  fetch_cloud s =
      if elim (cloud s) [ none ↦ false | some c ↦ world.is_built_in c ]
      then world.read_cloud s
      else fetch_external (scheme s) (show_source s)

  abbrev pub of_disk : String → Result String String → Parsed String
  of_disk path (ok text) = ok text
  of_disk path (err e) = err (config_err ("cannot read " ∷ path ∷ ": " ∷ e ∷ []))

  -- `ConfigSource::fetch_unprefixed`.
  unfoldable pub fetch_unprefixed : ConfigSource → Parsed String
  fetch_unprefixed (local_file path) = of_disk path (world.read_to_string path)
  fetch_unprefixed (http url) = fetch_http (world.get url)
  fetch_unprefixed s = fetch_cloud s

  abbrev pub named : ConfigSource → Parsed String → Parsed String
  named s (ok text) = ok text
  named s (err e) = err (config_err (show_source s ∷ ": " ∷ message e ∷ []))

  -- `ConfigSource::fetch`.
  unfoldable pub fetch : ConfigSource → Parsed String
  fetch s = named s (fetch_unprefixed s)

  -- `ConfigSource::check_supported` in this build.
  abbrev pub supported : ConfigSource → Parsed (Unit {0})
  supported = check_supported world.is_built_in (has_fetcher registry)

  abbrev pub is_secret : String → Bool
  is_secret url = elim (split_once 58 url) [ none ↦ false | some p ↦ any (λ s. s.0 == p.0) stores ]

  abbrev pub with_message : Parsed String → Result String String
  with_message (ok text) = ok text
  with_message (err e) = err (message e)

  abbrev pub fetch_parsed : Parsed ConfigSource → Parsed String
  fetch_parsed (err e) = err e
  fetch_parsed (ok s) = fetch_unprefixed s

  -- `fetch_blocking`, on a runtime that starts.
  unfoldable pub fetch_blocking : String → Result String String
  fetch_blocking url =
      with_message
        (if is_secret url then world.read_secret url else fetch_parsed (parse_source url))

  -- Who reads a source of a cloud: what `check_supported` and a fetch say.
  pub data ReadBy (s : ConfigSource) (c : String) : Parsed (Unit {0}) → Parsed String → Type 0 where
    built_in : world.is_built_in c ≡ true → ReadBy s c (ok tt) (world.read_cloud s)
    add_on :
        {f : F}
        → world.is_built_in c ≡ false
        → registered_fetcher (scheme s) registry ≡ some f
        → ReadBy s c (ok tt) (of_answer (world.run f (show_source s)))
    nobody :
        world.is_built_in c ≡ false
        → registered_fetcher (scheme s) registry ≡ none
        → ReadBy s c
            (err (config_err (show_source s ∷ ": " ∷ missing_support (scheme s) ∷ [])))
            (err (config (missing_support (scheme s))))

  -- A source of a cloud is read by the code of this build, else by the add-on that registered for
  -- its scheme, and if there is none, `check_supported` and a fetch both say what to install.
  pub fetch_cloud-ReadBy :
      (s : ConfigSource) (c : String) → cloud s ≡ some c → ReadBy s c (supported s) (fetch_cloud s)
  unfolding check_supported fetch_cloud fetch_external has_fetcher
  fetch_cloud-ReadBy s c h = elim (Bool-cases (world.is_built_in c)) [
    | inl b ↦ rw (h, b, check_supported, fetch_cloud) (built_in b)
    | inr b ↦ elim (Option-cases (registered_fetcher (scheme s) registry)) [
      | inl e ↦ rw (h, b, e, check_supported, fetch_cloud, has_fetcher, fetch_external) (nobody b e)
      | inr (f, e) ↦
          rw (h, b, e, check_supported, fetch_cloud, has_fetcher, fetch_external) (add_on b e)
    ]
  ]

-- The fetcher of a cloud is there for each of its sources.
module _ {F : Type 0} (f : F) (rs : List (String × F)) where
  abbrev Serves : String → String → Type 0
  Serves name c = registered_fetcher name (register_cloud_fetcher c f rs) ≡ some f

  serves : (name d c : String) → Serves name d → some d ≡ some c → Serves name c
  serves name d c h e = subst (Serves name) (some-injective _ _ e) h

  http-no_cloud : (url : String) → cloud (http url) ≡ none
  unfolding cloud scheme
  http-no_cloud url = elim (Bool-cases (has_prefix url "http://")) [
    | inl e ↦ rw e refl
    | inr e ↦ rw e refl
  ]

  registered-cloud : (s : ConfigSource) (c : String) → cloud s ≡ some c → Serves (scheme s) c
  unfolding registered_fetcher register_cloud_fetcher register_fetcher cloud scheme
  registered-cloud (local_file p) c h = ground arith
  registered-cloud (http u) c h = ground (arith, http-no_cloud u)
  registered-cloud (s3 b k) c h = serves "s3" "aws" c refl h
  registered-cloud (gcs b k) c h = serves "gs" "gcp" c refl h
  registered-cloud (azure b k) c h = serves "az" "azure" c refl h
  registered-cloud (app_config a e p) c h = serves "appconfig" "aws" c refl h
  registered-cloud (azure_app_config t k l) c h = serves "azappconfig" "azure" c refl h
  registered-cloud (dynamo_db t i k v) c h = serves "dynamodb" "aws" c refl h
  registered-cloud (firestore p d db g) c h = serves "firestore" "gcp" c refl h
  registered-cloud (cosmos a d k i pk g) c h = serves "cosmos" "azure" c refl h

  -- Once an add-on has registered for a cloud, each source of this cloud passes `check_supported`,
  -- and a fetch is answered by this build if the cloud is compiled in, else by this add-on,
  -- whatever had registered before.
  pub register_cloud_fetcher-fetch_cloud :
      (world : World F) (s : ConfigSource) (c : String)
      → cloud s ≡ some c
      → (supported world (register_cloud_fetcher c f rs) s ≡ ok tt)
        × (fetch_cloud world (register_cloud_fetcher c f rs) s ≡ (
            if world.is_built_in c
            then world.read_cloud s
            else of_answer (world.run f (show_source s))))
  unfolding check_supported fetch_cloud fetch_external has_fetcher
  register_cloud_fetcher-fetch_cloud world s c h =
      let r = registered-cloud s c h in
      elim (Bool-cases (world.is_built_in c)) [
        | inl b ↦ rw (h, b, check_supported, fetch_cloud) (refl, refl)
        | inr b ↦
            rw (h, b, r, check_supported, fetch_cloud, has_fetcher, fetch_external) (refl, refl)
      ]
