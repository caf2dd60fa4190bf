-- ===== src/Sources/Walks.antt =====
-- The sources of crates/core/src/source.rs as the files of a chain (crates/core/src/chain.rs).
use ops_signal.Prelude.{String, true, some, List, ◌≡◌, All, Result, ok}
use ops_signal.Signal.{SignalError}
use ops_signal.Chain.{ChainError, Files, Built, Walk, walk}
use ops_signal.Chain.Closed.{walk-AllOrder}
use ops_signal.Sources.{ConfigSource, is_remote, show_source}
use ops_signal.Sources.Join.{join_source}
use ops_signal.Sources.Relative.{join_source-Reaches}
use ops_signal.Sources.Fetchers.{World, fetch, supported}
use ops_signal.Sources.Options.{LoadOptions, cache_path}

-- What a chain uses of the layers and the secrets.
pub record Layers (L V C : Type 0) : Type 0 where
  pub parents : L → List String
  pub secret_refs : String → Result SignalError (List String)
  pub no_secrets : V
  pub resolve : List String → Result ChainError V
  pub parse_layer : String → V → Result SignalError L
  pub secrets_digest : V → String
  pub from_layers : List (String × L) → Result SignalError C

module _ {F L V C : Type 0} (world : World F) (registry : List (String × F)) (layers : Layers L V C)
    (url_join : String → String → Result String String) (path_join : String → String → String)
    (digest : String → String) (opts : LoadOptions) where
  -- The files of a chain, as `ConfigSource` and `LoadOptions` give them.
  unfoldable pub files_of : Files ConfigSource L V C
  files_of = record {
    show = show_source;
    is_remote = is_remote;
    join = join_source url_join;
    check_supported = supported world registry;
    fetch = fetch world registry;
    parents = layers.parents;
    secret_refs = layers.secret_refs;
    no_secrets = layers.no_secrets;
    resolve = layers.resolve;
    parse_layer = layers.parse_layer;
    secrets_digest = layers.secrets_digest;
    cache_path = cache_path path_join digest opts;
    read_file = world.read_to_string;
    from_layers = layers.from_layers;
  }

  -- If the roots of a walk are remote, each file that it loads is remote, whatever the files of the
  -- chain extend.
  pub walk-is_remote :
      (load : ConfigSource → Result ChainError (Built L)) (roots : List ConfigSource)
      (w : Walk ConfigSource L)
      → walk files_of load roots ≡ some (ok w)
      → All (λ s. is_remote s ≡ true) roots
      → All (λ f. is_remote f.source ≡ true) w.order
  unfolding files_of
  walk-is_remote load roots w h r =
      walk-AllOrder files_of load (λ s. is_remote s ≡ true)
        (λ s reference p k j. (join_source-Reaches url_join s reference p j).1 k) roots w h r
