-- ===== src/Startup.antt =====
-- Loading a config and keeping it up to date: `load_initial` of crates/core/src/source.rs and
-- `Reloader::check` of crates/core/src/reload.rs. What is written to the cache is a list of paths
-- and texts; a write that fails is logged. `none` is a walk without fuel, which
-- `Chain.Ends.Returns-walk` rules out.
pub mod Outcomes
pub mod Reloads
use ops_signal.Prelude.{
  String, Bool, true, false, not, ◌&&◌, ◌==◌, Option, none, some, List, [], ◌∷◌, ◌++◌, Result, ok,
  err, if◌then◌else◌,
}
use ops_signal.Signal.{SignalError}
use ops_signal.Chain
use ops_signal.Chain.{
  Mode, startup, cache_only, reload, ChainError, Files, Built, Visited, walk, merge, texts,
}
use ops_signal.Chain.Load
use ops_signal.Chain.Load.{load}

-- `Texts`.
abbrev pub Texts : Type 0
Texts = List (String × String × String)

-- `Loaded` of source.rs, and what was written to the cache.
pub record Start (C : Type 0) : Type 0 where
  pub config : C
  pub texts : Option Texts
  pub writes : List (String × String)

-- A config with the files that it was made from.
abbrev pub Merged : Type 0 → Type 0 → Type 0 → Type 0
Merged S L C = C × List (Chain.Loaded S L)

module _ {S L V C : Type 0} (files : Files S L V C) where
  abbrev pub with_files :
      List (Chain.Loaded S L) → Result ChainError C → Result ChainError (Merged S L C)
  with_files loaded (err e) = err e
  with_files loaded (ok c) = ok (c, loaded)

  abbrev pub merge_visited : Visited S L → Option (Result ChainError (Merged S L C))
  merge_visited none = none
  merge_visited (some (err e)) = some (err e)
  merge_visited (some (ok w)) = some (with_files w.order (merge files w.order))

  -- `walk`, then `merge`.
  unfoldable pub built : Mode → List S → Option (Result ChainError (Merged S L C))
  built mode roots = merge_visited (walk files (load files mode) roots)

  -- The writes to the cache: `cache_path` is there for remote files alone.
  unfoldable pub cache_writes : List (Chain.Loaded S L) → List (String × String)
  cache_writes [] = []
  cache_writes (f ∷ fs) =
      let rest = cache_writes fs in
      elim (files.cache_path f.source) [ none ↦ rest | some path ↦ (path, f.text) ∷ rest ]

  -- The cached copies, when the fresh files do not merge or load.
  unfoldable pub or_cached :
      Bool
      → Option (Result ChainError (Merged S L C))
      → Option (Result ChainError (Merged S L C))
      → Option (Result ChainError (Merged S L C))
  or_cached cache_on none second = none
  or_cached cache_on (some (ok b)) second = some (ok b)
  or_cached cache_on (some (err e)) second =
      if not e.fatal && cache_on
      then elim second [ none ↦ none | some (ok b) ↦ some (ok b) | some (err _) ↦ some (err e) ]
      else some (err e)

  -- The last `match built`.
  unfoldable pub started :
      C → Option (Result ChainError (Merged S L C)) → Option (Result SignalError (Start C))
  started fallback none = none
  started fallback (some (ok b)) =
      some (ok (record { config = b.0; texts = some (texts files b.1); writes = cache_writes b.1 }))
  started fallback (some (err e)) =
      if e.fatal
      then some (err e.err)
      else some (ok (record { config = fallback; texts = none; writes = [] }))

  -- The loop over the roots.
  unfoldable pub check_roots : List S → Result SignalError (Unit {0})
  check_roots [] = ok tt
  check_roots (root ∷ rest) = elim (files.check_supported root) [
    | err e ↦ err e
    | ok _ ↦ check_roots rest
  ]

  -- `load_initial`; `cache_on` says that the options have a cache directory, `fallback` is
  -- `Config::default()`.
  unfoldable pub load_initial : Bool → C → List S → Option (Result SignalError (Start C))
  load_initial cache_on fallback roots = elim (check_roots roots) [
    | err e ↦ some (err e)
    | ok _ ↦ started fallback (or_cached cache_on (built startup roots) (built cache_only roots))
  ]

-- `Reloader`, with the pipeline in place of the shared pointer to it; `storage` is compared only to
-- log a change.
pub record Reloader (S P : Type 0) : Type 0 where
  pub roots : List S
  pub last_texts : Option Texts
  pub pipeline : P

-- `==` on texts.
abbrev pub same_texts : Texts → Texts → Bool
same_texts [] [] = true
same_texts [] (_ ∷ _) = false
same_texts (_ ∷ _) [] = false
same_texts ((a, b, c) ∷ xs) ((d, e, f) ∷ ys) = a == d && b == e && c == f && same_texts xs ys

abbrev pub is_last : Option Texts → Texts → Bool
is_last none ts = false
is_last (some us) ts = same_texts us ts

module _ {S L V C P : Type 0} (files : Files S L V C) (from_config : C → P) where
  -- From the files of the walk.
  unfoldable pub apply_files :
      List (Chain.Loaded S L) → Reloader S P → Reloader S P × List (String × String)
  apply_files loaded r =
      if is_last r.last_texts (texts files loaded) then (r, []) else elim (merge files loaded) [
        | err _ ↦ (r, [])
        | ok c ↦ (
          record r { pipeline = from_config c; last_texts = some (texts files loaded) },
          cache_writes files loaded,
        )
      ]

  -- `Reloader::check`, and what it writes to the cache.
  unfoldable pub check : Reloader S P → Option (Reloader S P × List (String × String))
  check r = elim (walk files (load files reload) r.roots) [
    | none ↦ none
    | some (err _) ↦ some (r, [])
    | some (ok w) ↦ some (apply_files w.order r)
  ]
