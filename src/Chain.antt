-- ===== src/Chain.antt =====
-- crates/core/src/chain.rs: the files that a config extends. `Chain/Load.antt` has the reading of
-- one file. What the other parts of the program and the file system do for a chain is the record
-- `Files`, for sources `S`, layers `L`, values of secrets `V` and configs `C`.
pub mod Load
pub mod Ends
pub mod Closed
pub mod Order
pub mod Fallback
pub mod Visits
use ops_signal.Prelude.{
  ℕ, zero, suc, String, Bool, true, false, not, Option, none, some, List, [], ◌∷◌, ◌++◌, map, any,
  length, leb, contains, join, decimal, format, Result, ok, err, if◌then◌else◌,
}
use ops_signal.Signal.{SignalError, config}

-- `MAX_DEPTH` and `MAX_FILES`.
abbrev pub max_depth : ℕ
max_depth = 8

abbrev pub max_files : ℕ
max_files = 64

-- `Mode`.
pub data Mode : Type 0 where
  startup cache_only reload : Mode

-- `ChainError`.
pub record ChainError : Type 0 where
  pub err : SignalError
  pub fatal : Bool

-- `ChainError::fatal`.
abbrev pub fatal_error : SignalError → ChainError
fatal_error e = record { err = e; fatal = true }

-- What a chain uses: of `ConfigSource`, of `Layer` and `Config`, of the secrets, and of the files
-- that it reads. `cache_path` is that of the options, `read_file` fails with the text of the error.
pub record Files (S L V C : Type 0) : Type 0 where
  pub show : S → String
  pub is_remote : S → Bool
  pub join : S → String → Result SignalError S
  pub check_supported : S → Result SignalError (Unit {0})
  pub fetch : S → Result SignalError String
  pub parents : L → List String
  pub secret_refs : String → Result SignalError (List String)
  pub no_secrets : V
  pub resolve : List String → Result ChainError V
  pub parse_layer : String → V → Result SignalError L
  pub secrets_digest : V → String
  pub cache_path : S → Option String
  pub read_file : String → Result String String
  pub from_layers : List (String × L) → Result SignalError C

-- `Fetched`, with the layer that stands beside it.
pub record Loaded (S L : Type 0) : Type 0 where
  pub source : S
  pub text : String
  pub secrets : String
  pub layer : L

-- `Built`.
pub record Built (L : Type 0) : Type 0 where
  pub text : String
  pub layer : L
  pub secrets : String

-- `Walk`; its mode is an argument.
pub record Walk (S L : Type 0) : Type 0 where
  pub stack : List String
  pub seen : List String
  pub order : List (Loaded S L)

abbrev pub new_walk : {S L : Type 0} → Walk S L
new_walk = record { stack = []; seen = []; order = [] }

-- `config_err`.
abbrev pub config_err : List String → SignalError
config_err parts = config (format parts)

-- `Vec::pop`.
abbrev pub pop {ℓ} : {A : Type ℓ} → List A → List A
pop [] = []
pop (x ∷ []) = []
pop (x ∷ y ∷ xs) = x ∷ pop (y ∷ xs)

-- A visit's result; `none` is a lack of fuel.
abbrev pub Visited : Type 0 → Type 0 → Type 0
Visited S L = Option (Result ChainError (Walk S L))

module _ {S L V C : Type 0} (files : Files S L V C) (load : S → Result ChainError (Built L)) where
  -- The end of a visit: the stack is popped, and the file is done.
  unfoldable pub done : S → Built L → Walk S L → Walk S L
  done s b w = record {
    stack = pop w.stack;
    seen = w.seen ++ files.show s ∷ [];
    order =
        w.order ++ record { source = s; text = b.text; secrets = b.secrets; layer = b.layer } ∷ [];
  }

  abbrev pub finish : S → Built L → Visited S L → Visited S L
  finish s b none = none
  finish s b (some (err e)) = some (err e)
  finish s b (some (ok w)) = some (ok (done s b w))

  -- `?` on the result of a visit, and on the joining of a reference.
  abbrev pub and_then : Visited S L → (Walk S L → Visited S L) → Visited S L
  and_then none next = none
  and_then (some (err e)) next = some (err e)
  and_then (some (ok w)) next = next w

  abbrev pub with_parent : Result SignalError S → (S → Visited S L) → Visited S L
  with_parent (err e) next = some (err (fatal_error e))
  with_parent (ok p) next = next p

  -- The loop over a file's `extends`.
  unfoldable pub visit_parents :
      (Walk S L → S → Visited S L) → S → List String → Walk S L → Visited S L
  visit_parents visit s [] w = some (ok w)
  visit_parents visit s (parent ∷ rest) w =
      with_parent (files.join s parent) (λ p. and_then (visit w p) (visit_parents visit s rest))

  -- From the result of `load`.
  unfoldable pub enter :
      (Walk S L → S → Visited S L) → S → Walk S L → Result ChainError (Built L) → Visited S L
  enter visit s w (err e) = some (err e)
  enter visit s w (ok b) = finish s b (
      visit_parents visit s (files.parents b.layer)
        (record w { stack = w.stack ++ files.show s ∷ [] }))

  -- From the result of `check_supported`.
  unfoldable pub open_file :
      (Walk S L → S → Visited S L) → S → Walk S L → Result SignalError (Unit {0}) → Visited S L
  open_file visit s w (err e) = some (err (fatal_error e))
  open_file visit s w (ok _) = enter visit s w (load s)

  -- What `visit` says of a source before it reads it, if it goes no further.
  unfoldable pub guard : S → Walk S L → Option (Result ChainError (Walk S L))
  guard s w =
      let key = files.show s in
      if contains key w.stack
      then some (
          err (
            fatal_error
              (config_err ("`extends` cycle: " ∷ join " -> " (w.stack ++ key ∷ []) ∷ []))))
      else if contains key w.seen
      then some (ok w)
      else if leb max_depth (length w.stack)
      then some (
          err (
            fatal_error (
              config_err
                (key ∷ ": `extends` chain is deeper than " ∷ decimal max_depth ∷ " files" ∷ []))))
      else if leb max_files (length w.seen)
      then some (
          err (
            fatal_error (
              config_err
                (key ∷ ": config chain loads more than " ∷ decimal max_files ∷ " files" ∷ []))))
      else none

  -- `Walk::visit`, on fuel.
  unfoldable pub visit : ℕ → Walk S L → S → Visited S L
  visit zero w s = none
  visit (suc fuel) w s =
      let below = open_file (visit fuel) s w (files.check_supported s) in
      elim (guard s w) [ some r ↦ some r | none ↦ below ]

  -- The loop of `walk`.
  unfoldable pub visit_roots : ℕ → List S → Walk S L → Visited S L
  visit_roots fuel [] w = some (ok w)
  visit_roots fuel (root ∷ rest) w = and_then (visit fuel w root) (visit_roots fuel rest)

  -- `walk`, with fuel for one more than the deepest chain.
  unfoldable pub walk : List S → Visited S L
  walk roots = visit_roots (suc max_depth) roots new_walk

module _ {S L V C : Type 0} (files : Files S L V C) where
  -- `texts`.
  unfoldable pub texts : List (Loaded S L) → List (String × String × String)
  texts = map (λ f. (files.show f.source, f.text, f.secrets))

  -- `merge`.
  unfoldable pub merge : List (Loaded S L) → Result ChainError C
  merge loaded = elim (files.from_layers (map (λ f. (files.show f.source, f.layer)) loaded)) [
    | ok c ↦ ok c
    | err e ↦ err (record { err = e; fatal = any (λ f. not (files.is_remote f.source)) loaded })
  ]
