-- ===== src/Sources/Join.antt =====
-- `ConfigSource::join`, `join_key`, `flat_name` and `normalize` of crates/core/src/source.rs. A
-- path is its components, as Unix has them; joining a URL is the `url` crate's.
use mathlib.Core.List.{reverse}
use ops_signal.Prelude.{
  ◌%◌, String, Bool, not, ◌&&◌, ◌||◌, Option, none, some, List, [], ◌∷◌, ◌++◌, ◌==◌, length, eqb,
  is_empty, trim, has_prefix, contains_text, has_char, split_on, join, Result, ok, err,
  if◌then◌else◌,
}
use ops_signal.Chain.{config_err}
use ops_signal.Sources.{
  ConfigSource, local_file, http, s3, gcs, azure, app_config, azure_app_config, dynamo_db,
  firestore, cosmos, show_source, is_remote, scheme,
}
use ops_signal.Sources.Parse.{Parsed, parse_source}

-- `std::path::Component`.
pub data Component : Type 0 where
  root_dir cur_dir parent_dir : Component
  normal : String → Component

-- `Path::components` after the first: no empty ones and no `.`.
abbrev pub component : String → List Component → List Component
component name rest =
    if is_empty name || name == "."
    then rest
    else if name == ".."
    then parent_dir ∷ rest
    else normal name ∷ rest

abbrev pub later_components : List String → List Component
later_components [] = []
later_components (name ∷ names) = component name (later_components names)

abbrev pub first_components : List String → List Component
first_components [] = []
first_components (name ∷ names) =
    if name == "." then cur_dir ∷ later_components names else later_components (name ∷ names)

abbrev pub is_absolute : String → Bool
is_absolute path = has_prefix path "/"

-- `Path::components`.
unfoldable pub components : String → List Component
components path =
    if is_absolute path
    then root_dir ∷ later_components (split_on 47 path)
    else first_components (split_on 47 path)

-- A component pushed on the path before it, the last component first.
unfoldable pub push_normal : List Component → Component → List Component
push_normal out cur_dir = out
push_normal (normal name ∷ out) parent_dir = out
push_normal out part = part ∷ out

abbrev pub push_all : List Component → List Component → List Component
push_all out [] = out
push_all out (part ∷ parts) = push_all (push_normal out part) parts

-- `normalize`.
unfoldable pub normalize : List Component → List Component
normalize path = reverse (push_all [] path)

-- `Path::parent`, or no components.
unfoldable pub parent : List Component → List Component
parent [] = []
parent (root_dir ∷ []) = []
parent (part ∷ []) = []
parent (part ∷ next ∷ rest) = part ∷ parent (next ∷ rest)

-- What a `PathBuf` of these components reads as.
abbrev pub component_text : Component → String
component_text root_dir = ""
component_text cur_dir = "."
component_text parent_dir = ".."
component_text (normal name) = name

abbrev pub texts_of : List Component → List String
texts_of [] = []
texts_of (part ∷ parts) = component_text part ∷ texts_of parts

unfoldable pub path_text : List Component → String
path_text (root_dir ∷ []) = "/"
path_text parts = join "/" (texts_of parts)

-- The segments of `join_key`, on the parts so far, the last one first.
unfoldable pub key_segments : List String → List String → Option (List String)
key_segments parts [] = some parts
key_segments parts (segment ∷ segments) =
    if is_empty segment || segment == "."
    then key_segments parts segments
    else if segment == ".."
    then elim parts [ [] ↦ none | _ ∷ before ↦ key_segments before segments ]
    else key_segments (segment ∷ parts) segments

abbrev pub tail_of {ℓ} : {A : Type ℓ} → List A → List A
tail_of [] = []
tail_of (_ ∷ xs) = xs

abbrev pub and_make : (String → ConfigSource) → Parsed String → Parsed ConfigSource
and_make make (err e) = err e
and_make make (ok name) = ok (make name)

module _ (self : ConfigSource) (reference : String) where
  abbrev pub key_of : Option (List String) → Parsed String
  key_of none =
      err (config_err (show_source self ∷ ": '" ∷ reference ∷ "' points outside the bucket" ∷ []))
  key_of (some []) =
      err (config_err (show_source self ∷ ": '" ∷ reference ∷ "' does not name a file" ∷ []))
  key_of (some (p ∷ ps)) = ok (join "/" (reverse (p ∷ ps)))

  -- `ConfigSource::join_key`.
  unfoldable pub join_key : String → Parsed String
  join_key key = key_of (key_segments (tail_of (reverse (split_on 47 key))) (split_on 47 reference))

  -- `ConfigSource::flat_name`.
  unfoldable pub flat_name : Parsed String
  flat_name =
      if is_empty reference || has_char 47 reference || has_char 63 reference
      then err (
          config_err (
            show_source self
            ∷ ": '"
            ∷ reference
            ∷ "' is not an item id; use a full "
            ∷ scheme self
            ∷ ":// URL"
            ∷ []))
      else ok reference

  -- A document, and not a collection.
  abbrev pub a_document : (String → ConfigSource) → Parsed String → Parsed ConfigSource
  a_document make (err e) = err e
  a_document make (ok document) =
      if eqb (length (split_on 47 document) % 2) 0
      then ok (make document)
      else err (
          config_err
            (show_source self ∷ ": '" ∷ reference ∷ "' is a collection, not a document" ∷ []))

  abbrev pub parse_joined : Result String String → Parsed ConfigSource
  parse_joined (ok url) = parse_source url
  parse_joined (err e) =
      err (config_err (show_source self ∷ ": cannot resolve '" ∷ reference ∷ "': " ∷ e ∷ []))

-- No remote file extends a local one.
abbrev pub keep_remote : ConfigSource → Parsed ConfigSource → Parsed ConfigSource
keep_remote self (err e) = err e
keep_remote self (ok joined) =
    if is_remote self && not (is_remote joined)
    then err (
        config_err (
          show_source self
          ∷ ": a remote config cannot extend the local file "
          ∷ show_source joined
          ∷ []))
    else ok joined

abbrev pub is_whole : String → Bool
is_whole r = contains_text "://" r || is_absolute r

-- `Url::parse` and `Url::join` of the `url` crate, on the base and the reference.
module _ (url_join : String → String → Result String String) where
  -- A reference that is not absolute.
  unfoldable pub join_relative : ConfigSource → String → Parsed ConfigSource
  join_relative (local_file path) r =
      ok (local_file (path_text (normalize (parent (components path) ++ components r))))
  join_relative (http url) r = parse_joined (http url) r (url_join url r)
  join_relative (s3 bucket key) r = and_make (s3 bucket) (join_key (s3 bucket key) r key)
  join_relative (gcs bucket object) r =
      and_make (gcs bucket) (join_key (gcs bucket object) r object)
  join_relative (azure container blob) r =
      and_make (azure container) (join_key (azure container blob) r blob)
  join_relative (app_config application environment profile) r =
      if is_empty r || has_char 47 r
      then err (
          config_err (
            show_source (app_config application environment profile)
            ∷ ": '"
            ∷ r
            ∷ "' is not a profile name; use a full appconfig:// URL"
            ∷ []))
      else ok (app_config application environment r)
  join_relative (azure_app_config store key label) r =
      and_make (λ k. azure_app_config store k label)
        (join_key (azure_app_config store key label) r key)
  join_relative (dynamo_db table id key value) r =
      and_make (λ i. dynamo_db table i key value) (flat_name (dynamo_db table id key value) r)
  join_relative (firestore project document database field) r =
      a_document (firestore project document database field) r
        (λ d. firestore project d database field)
        (join_key (firestore project document database field) r document)
  join_relative (cosmos account database container id pk field) r =
      and_make (λ i. cosmos account database container i none field)
        (flat_name (cosmos account database container id pk field) r)

  -- `ConfigSource::join`.
  unfoldable pub join_source : ConfigSource → String → Parsed ConfigSource
  join_source self reference =
      let r = trim reference in
      keep_remote self (if is_whole r then parse_source r else join_relative self r)
