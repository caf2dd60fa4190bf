-- ===== src/Chain/Load.antt =====
-- The reading of one file of a chain: `Walk::load`, `build` and `read_cache` of
-- crates/core/src/chain.rs.
use ops_signal.Prelude.{
  String, false, not, none, some, List, [], ◌∷◌, null, format, Result, ok, err, if◌then◌else◌,
}
use ops_signal.Signal.{SignalError, validation, config, delivery, sink, timeout, internal}
use ops_signal.Chain.{
  Mode, startup, cache_only, reload, ChainError, fatal_error, Files, Built, config_err,
}

-- `Failure`.
pub data Failure : Type 0 where
  text_failure : SignalError → Failure
  secrets_failure : ChainError → Failure

-- `message` of crates/core/src/source.rs, with the errors' own texts.
unfoldable pub message : SignalError → String
message (config msg) = msg
message (validation msg) = format ("validation failed: " ∷ msg ∷ [])
message (delivery msg) = format ("delivery failed: " ∷ msg ∷ [])
message (sink msg) = format ("sink write failed: " ∷ msg ∷ [])
message (timeout msg) = format ("timeout after " ∷ msg ∷ [])
message (internal msg) = format ("internal error (recovered from panic): " ∷ msg ∷ [])

module _ {S L V C : Type 0} (files : Files S L V C) where
  -- `described`.
  unfoldable pub described : S → SignalError → SignalError
  described s e = config_err (files.show s ∷ ": " ∷ message e ∷ [])

  -- The secrets that a text names.
  unfoldable pub values_of : S → List String → Result Failure V
  values_of s names = if null names then ok files.no_secrets else elim (files.resolve names) [
    | ok v ↦ ok v
    | err e ↦ err (secrets_failure (record { err = described s e.err; fatal = e.fatal }))
  ]

  unfoldable pub build_layer : S → String → Result Failure V → Result Failure (Built L)
  build_layer s text (err e) = err e
  build_layer s text (ok values) = elim (files.parse_layer text values) [
    | err e ↦ err (text_failure (described s e))
    | ok layer ↦ ok (record { text = text; layer = layer; secrets = files.secrets_digest values })
  ]

  -- `build`.
  unfoldable pub build : S → String → Result Failure (Built L)
  build s text = elim (files.secret_refs text) [
    | err e ↦ err (text_failure (described s e))
    | ok names ↦ build_layer s text (values_of s names)
  ]

  -- The `match build` of `read_cache`.
  unfoldable pub from_cache : String → Result Failure (Built L) → Result Failure (Built L)
  from_cache path (ok b) = ok b
  from_cache path (err (secrets_failure e)) = err (secrets_failure e)
  from_cache path (err (text_failure e)) =
      err
        (text_failure (config_err ("cached config at " ∷ path ∷ " is unusable: " ∷ message e ∷ [])))

  -- `read_cache`.
  unfoldable pub read_cache : S → Result Failure (Built L)
  read_cache s = elim (files.cache_path s) [
    | none ↦ err (text_failure (config_err (files.show s ∷ ": config cache is off" ∷ [])))
    | some path ↦ elim (files.read_file path) [
      | err e ↦
          err (
            text_failure
              (config_err (files.show s ∷ ": no cached copy at " ∷ path ∷ ": " ∷ e ∷ [])))
      | ok text ↦ from_cache path (build s text)
    ]
  ]

  -- `fetch` and `build`.
  unfoldable pub read_fresh : S → Result Failure (Built L)
  read_fresh s = elim (files.fetch s) [ ok text ↦ build s text | err e ↦ err (text_failure e) ]

  -- A cached copy that is not there is no fatal error.
  unfoldable pub only_cached : Result Failure (Built L) → Result ChainError (Built L)
  only_cached (ok b) = ok b
  only_cached (err (secrets_failure e)) = err e
  only_cached (err (text_failure e)) = err (record { err = e; fatal = false })

  -- The cached copy at startup, after the fresh text failed with the error.
  unfoldable pub instead : SignalError → Result Failure (Built L) → Result ChainError (Built L)
  instead e (ok b) = ok b
  instead e (err (secrets_failure f)) = err f
  instead e (err (text_failure _)) = err (record { err = e; fatal = false })

  -- The `match fresh`.
  unfoldable pub load_fresh : Mode → S → Result Failure (Built L) → Result ChainError (Built L)
  load_fresh mode s (ok b) = ok b
  load_fresh mode s (err (secrets_failure e)) = err e
  load_fresh mode s (err (text_failure e)) =
      if not (files.is_remote s) then err (fatal_error e) else elim mode [
        | startup ↦ instead e (read_cache s)
        | cache_only ↦ err (record { err = e; fatal = false })
        | reload ↦ err (record { err = e; fatal = false })
      ]

  -- `Walk::load`.
  unfoldable pub load : Mode → S → Result ChainError (Built L)
  load cache_only s =
      if files.is_remote s
      then only_cached (read_cache s)
      else load_fresh cache_only s (read_fresh s)
  load startup s = load_fresh startup s (read_fresh s)
  load reload s = load_fresh reload s (read_fresh s)
