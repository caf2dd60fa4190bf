-- ===== src/Examples/Chains.antt =====
-- Chains of files (crates/core/src/chain.rs), and starts and polls on them.
use ops_signal.Prelude.{
  ℕ, zero, suc, ◌+◌, ◌≤◌, String, true, Option, none, some, List, [], ◌∷◌, ◌≡◌, refl, ◌==◌, ◌||◌,
  length, map, contains, All, Result, ok, err, decimal, if◌then◌else◌, ◌↔◌, format, ◌⊎◌,
}
use ops_signal.Signal.{SignalError, config}
use ops_signal.Chain.{
  startup, ChainError, Files, Built, Loaded, Walk, walk, max_files, visit_parents, visit, guard,
  open_file, enter, done, visit_roots,
}
use ops_signal.Chain.Load.{
  load, described, message, read_fresh, load_fresh, build, build_layer, values_of,
}
use ops_signal.Chain.Order.{IsWalk, keys, walk-IsWalk, walk_bounded}
use ops_signal.Chain.Ends.{Returns, Returns-walk}
use ops_signal.Chain.Fallback.{Gives, LacksSecrets, load-Gives, load_fatal}
use ops_signal.Startup.{Start, Reloader, load_initial, check}
use ops_signal.Startup.Outcomes.{Means, load_initial-Means}
use ops_signal.Startup.Reloads.{IsKept, IsReplaced, check_settles}

-- Files by name, with the names that each extends; `lost` has no secrets, and no file is cached.
abbrev store : (String → List String) → Files String (List String) (Unit {0}) (List String)
store parents = record {
  show = λ s. s;
  is_remote = λ s. s == "remote" || s == "lost";
  join = λ s r. ok r;
  check_supported = λ s. ok tt;
  fetch = λ s. if s == "remote" then err (config "no answer") else ok s;
  parents = λ l. l;
  secret_refs = λ t. if t == "lost" then ok ("key" ∷ []) else ok [];
  no_secrets = tt;
  resolve = λ names. err (record { err = config "denied"; fatal = true });
  parse_layer = λ t v. ok (parents t);
  secrets_digest = λ v. "";
  cache_path = λ s. none;
  read_file = λ path. err "not found";
  from_layers = λ ls. ok (map (λ l. l.0) ls);
}

-- Two teams that extend one default.
abbrev teams : String → List String
teams s =
    if s == "root" then "a" ∷ "b" ∷ [] else if s == "a" || s == "b" then "default" ∷ [] else []

abbrev files : Files String (List String) (Unit {0}) (List String)
files = store teams

abbrev by_name : String → Result ChainError (Built (List String))
by_name s = ok (record { text = s; layer = teams s; secrets = "" })

abbrev loaded : String → Loaded String (List String)
loaded s = record { source = s; text = s; secrets = ""; layer = teams s }

abbrev shared : Walk String (List String)
shared = record {
  stack = [];
  seen = "default" ∷ "a" ∷ "b" ∷ "root" ∷ [];
  order = loaded "default" ∷ loaded "a" ∷ loaded "b" ∷ loaded "root" ∷ [];
}

once : walk files by_name ("root" ∷ []) ≡ some (ok shared)
unfolding walk visit_roots visit visit_parents guard open_file enter done
once = refl

walk-IsWalk_example :
    IsWalk files by_name shared
    × All (λ s. contains s (keys files by_name shared.order) ≡ true) ("root" ∷ [])
walk-IsWalk_example = walk-IsWalk files by_name ("root" ∷ []) shared once

walk_bounded_example : length shared.order ≤ max_files + 7
walk_bounded_example = walk_bounded files by_name ("root" ∷ []) shared once

-- A file that extends itself by another.
abbrev circular : String → List String
circular s = if s == "a" then "b" ∷ [] else "a" ∷ []

abbrev by_circle : String → Result ChainError (Built (List String))
by_circle s = ok (record { text = s; layer = circular s; secrets = "" })

Returns-walk_example :
    Returns (store circular) by_circle (walk (store circular) by_circle ("a" ∷ []))
Returns-walk_example = Returns-walk (store circular) by_circle ("a" ∷ [])

-- A root that extends as many files as the limit allows loads one more.
abbrev names : ℕ → List String
names zero = []
names (suc n) = decimal n ∷ names n

abbrev wide : String → List String
wide s = if s == "root" then names 64 else []

abbrev by_width : String → Result ChainError (Built (List String))
by_width s = ok (record { text = s; layer = wide s; secrets = "" })

abbrev count : Option (Result ChainError (Walk String (List String))) → ℕ
count (some (ok w)) = length w.order
count _ = 0

one_too_many : count (walk (store wide) by_width ("root" ∷ [])) ≡ 65
unfolding walk visit_roots visit visit_parents guard open_file enter done decimal
one_too_many = refl

load-Gives_example :
    (load files startup "a" ≡ ok (record { text = "a"; layer = teams "a"; secrets = "" }))
    ↔ Gives files "a" (record { text = "a"; layer = teams "a"; secrets = "" }) startup
load-Gives_example =
    load-Gives files startup "a" (record { text = "a"; layer = teams "a"; secrets = "" })

-- A remote file whose secrets are denied.
abbrev denied : ChainError
denied = record { err = config "lost: denied"; fatal = true }

load_fatal_example : LacksSecrets files "lost"
unfolding load load_fresh build build_layer values_of read_fresh format described message
load_fatal_example = load_fatal files startup "lost" denied refl refl refl

-- A remote file that does not answer, with no cached copy: the client starts by default.
load_initial-Means_example :
    (r : Result SignalError (Start (List String))) × (load_initial files true
        ("console" ∷ [])
        ("remote" ∷ [])
      ≡ some r)
    × Means files true ("console" ∷ []) ("remote" ∷ []) r
load_initial-Means_example = load_initial-Means files true ("console" ∷ []) ("remote" ∷ [])

abbrev reloader : Reloader String (List String)
reloader = record { roots = "root" ∷ []; last_texts = none; pipeline = [] }

check_settles_example :
    (y : Reloader String (List String) × List (String × String)) × (check files (λ c. c) reloader
      ≡ some y)
    × (IsKept files (λ c. c) reloader y ⊎ IsReplaced files (λ c. c) reloader y)
    × (check files (λ c. c) y.0 ≡ some (y.0, []))
check_settles_example = check_settles files (λ c. c) reloader
