-- ===== src/Sources/Options.antt =====
-- `LoadOptions` and `ConfigSource::discover` of crates/core/src/source.rs. The environment and the
-- files of the disk are parameters; a path is its text, and SHA-256 and the joining of paths are
-- functions.
use Prim.Native.Char.{code}
use ops_signal.Prelude.{
  ℕ, ◌^◌, String, Bool, true, not, ◌&&◌, Option, none, some, List, [], ◌∷◌, ok, err, if◌then◌else◌,
  is_empty, trim, ltb, is_ascii_digit, eqb, value_from, format, or_else, ◌≡◌,
}
use ops_signal.Chain.{config_err}
use ops_signal.Sources.{ConfigSource, local_file, is_remote, show_source}
use ops_signal.Sources.Parse.{Parsed, parse_list}

-- `LoadOptions`; the refresh is in seconds.
pub record LoadOptions : Type 0 where
  pub refresh : Option ℕ
  pub cache_dir : Option String

abbrev pub default_refresh : ℕ
default_refresh = 60

abbrev pub all_digits : String → Bool
all_digits String.[] = true
all_digits (String.◌∷◌ c s) = is_ascii_digit c && all_digits s

-- `str::parse::<u64>`: a sign `+` may stand before the digits.
abbrev pub without_plus : String → String
without_plus String.[] = ""
without_plus (String.◌∷◌ c s) = if eqb (code c) 43 then s else String.◌∷◌ c s

unfoldable pub read_u64 : String → Option ℕ
read_u64 raw =
    let digits = without_plus raw in
    if not (is_empty digits) && all_digits digits && ltb (value_from 0 digits) (2 ^ 64)
    then some (value_from 0 digits)
    else none

-- The variables of the environment that are read here, and the folder for temporary files.
pub record Environment : Type 0 where
  pub signal_config : Option String
  pub refresh_secs : Option String
  pub cache_var : Option String
  pub xdg_cache_home : Option String
  pub home : Option String
  pub temp_dir : String

module _ (path_join : String → String → String) where
  -- `default_cache_dir`.
  unfoldable pub default_cache_dir : Environment → String
  default_cache_dir env =
      path_join
        (elim (or_else env.xdg_cache_home
          (elim env.home [ none ↦ none | some h ↦ some (path_join h ".cache") ])) [
            | none ↦ env.temp_dir
            | some base ↦ base
          ])
        "opssignal"

  -- `impl Default for LoadOptions`.
  abbrev pub default_options : Environment → LoadOptions
  default_options env = record {
    refresh = some default_refresh;
    cache_dir = some (default_cache_dir env);
  }

  -- `LoadOptions::once`.
  unfoldable pub once : Environment → LoadOptions
  once env = record (default_options env) { refresh = none }

  abbrev pub with_refresh : String → LoadOptions → Option ℕ → Parsed LoadOptions
  with_refresh raw opts none = err (
      config_err
        ("$SIGNAL_CONFIG_REFRESH_SECS must be a whole number of seconds, got '" ∷ raw ∷ "'" ∷ []))
  with_refresh raw opts (some secs) =
      ok (record opts { refresh = if ltb 0 secs then some secs else none })

  abbrev pub read_refresh : Option String → LoadOptions → Parsed LoadOptions
  read_refresh none opts = ok opts
  read_refresh (some raw) opts = with_refresh raw opts (read_u64 (trim raw))

  abbrev pub read_cache_dir : Option String → Parsed LoadOptions → Parsed LoadOptions
  read_cache_dir dir (err e) = err e
  read_cache_dir none (ok opts) = ok opts
  read_cache_dir (some dir) (ok opts) = ok (record opts { cache_dir = some dir })

  -- `LoadOptions::from_env`; a variable that is not Unicode counts as not set.
  unfoldable pub from_env : Environment → Parsed LoadOptions
  from_env env = read_cache_dir env.cache_var (read_refresh env.refresh_secs (default_options env))

  -- `LoadOptions::cache_path`, with the first 16 digits of a text's SHA-256.
  unfoldable pub cache_path : (String → String) → LoadOptions → ConfigSource → Option String
  cache_path digest opts s = if not (is_remote s) then none else elim opts.cache_dir [
    | none ↦ none
    | some dir ↦ some (path_join dir (format ("signal-" ∷ digest (show_source s) ∷ ".yaml" ∷ [])))
  ]

module _ (is_file : String → Bool) where
  -- The loop over the listed files of `discover`.
  unfoldable pub find_missing : List ConfigSource → Option String
  find_missing [] = none
  find_missing (local_file path ∷ ss) =
      let rest = find_missing ss in if not (is_file path) then some path else rest
  find_missing (s ∷ ss) = find_missing ss

  abbrev pub not_missing : List ConfigSource → Option String → Parsed (Option (List ConfigSource))
  not_missing ss none = ok (some ss)
  not_missing ss (some path) =
      err (config_err ("$SIGNAL_CONFIG points to " ∷ path ∷ ", which is not a file" ∷ []))

  abbrev pub all_there : Parsed (List ConfigSource) → Parsed (Option (List ConfigSource))
  all_there (err e) = err e
  all_there (ok ss) = not_missing ss (find_missing ss)

  -- `ConfigSource::discover`.
  unfoldable pub discover : Environment → Parsed (Option (List ConfigSource))
  discover env = elim env.signal_config [
    | some raw ↦ all_there (parse_list raw)
    | none ↦ ok (if is_file "signal.yaml" then some (local_file "signal.yaml" ∷ []) else none)
  ]

  -- A local file that is there.
  abbrev pub IsThere : ConfigSource → Type 0
  IsThere s = (path : String) → s ≡ local_file path → is_file path ≡ true
