-- ===== src/Sources/Queries.antt =====
-- The queries that `write_query` of crates/core/src/source.rs writes, `split_query` reads.
use ops_signal.Prelude.{
  ℕ, String, false, Option, none, some, List, [], ◌∷◌, ◌==◌, ◌≡◌, refl, sym, ap, ◌∙◌, arith, map,
  is_empty, has_char, split_on, append, joined_at, split_once-joined_at, split_on_single,
  split_on-joined_at, split_once-none, has_char-append, ok, eq_refl,
}
use ops_signal.Sources.{write_query}
use ops_signal.Sources.Parse.{set_value, read_pairs, with_path, split_query}

-- A part of a text that stands before a separator.
pub record IsPart (n : ℕ) (p : String) : Type 0 where
  pub filled : is_empty p ≡ false
  pub lacks : has_char n p ≡ false

-- A parameter's value that a query can carry.
pub data IsValue : Option String → Type 0 where
  absent : IsValue none
  present : {v : String} → IsPart 38 v → IsValue (some v)

pub split_query_plain :
    (path raw : String) (allowed : List String)
    → has_char 63 path ≡ false
    → split_query path raw allowed ≡ ok (path, map (λ _. none) allowed)
unfolding split_query
split_query_plain path raw allowed h = rw (split_query, split_once-none 63 path h) refl

split_query_some :
    (path query raw : String) (allowed : List String)
    → has_char 63 path ≡ false
    → split_query (joined_at "?" path query) raw allowed
      ≡ with_path path (read_pairs allowed raw (split_on 38 query) (map (λ _. none) allowed))
unfolding split_query read_pairs
split_query_some path query raw allowed h =
    rw (split_query, split_once-joined_at "?" path query h) refl

pub append_empty : (a : String) → append a "" ≡ a
append_empty String.[] = refl
append_empty (String.◌∷◌ c a) = ap (String.◌∷◌ c) (append_empty a)

append-append : (a b c : String) → append (append a b) c ≡ append a (append b c)
append-append String.[] b c = refl
append-append (String.◌∷◌ x a) b c = ap (String.◌∷◌ x) (append-append a b c)

-- A parameter's name.
pub record IsName (n : String) : Type 0 where
  pub no_amp : has_char 38 n ≡ false
  pub no_equals : has_char 61 n ≡ false

abbrev pair_of : String → String → String
pair_of n v = joined_at "=" n v

pair_lacks : {n v : String} → IsName n → IsPart 38 v → has_char 38 (pair_of n v) ≡ false
unfolding has_char
pair_lacks {n} {v} hn hv = has_char-append 38 n (String.◌∷◌ "=" v) ∙ rw (hn.no_amp) hv.lacks

read_pair :
    (n v : String) (pairs : List String) (vs ws : List (Option String)) (raw : String)
    (allowed : List String)
    → IsName n
    → set_value allowed n v vs ≡ some ws
    → read_pairs allowed raw (pair_of n v ∷ pairs) vs ≡ read_pairs allowed raw pairs ws
unfolding read_pairs
read_pair n v pairs vs ws raw allowed hn h =
    rw (read_pairs, split_once-joined_at "=" n v hn.no_equals, h) refl

set_first :
    (n m v : String)
    → IsPart 38 v
    → set_value (n ∷ m ∷ []) n v (none ∷ none ∷ []) ≡ some (some v ∷ none ∷ [])
unfolding set_value
set_first n m v hv = ground (arith, eq_refl n, hv.filled)

set_second :
    (n m v : String) (o : Option String)
    → (n == m) ≡ false
    → IsPart 38 v
    → set_value (n ∷ m ∷ []) m v (o ∷ none ∷ []) ≡ some (o ∷ some v ∷ [])
unfolding set_value
set_second n m v o hne hv = ground (arith, eq_refl m, hv.filled, hne)

set_only : (n v : String) → IsPart 38 v → set_value (n ∷ []) n v (none ∷ []) ≡ some (some v ∷ [])
unfolding set_value
set_only n v hv = ground (arith, eq_refl n, hv.filled)

-- The query of one parameter, and that of two.
pub one_query :
    (path raw n : String) (v : Option String)
    → has_char 63 path ≡ false
    → IsName n
    → IsValue v
    → split_query (append path (write_query "?" ((n, v) ∷ []))) raw (n ∷ []) ≡ ok (path, v ∷ [])
unfolding write_query read_pairs
one_query path raw n none h hn absent = rw (append_empty path) (split_query_plain path raw _ h)
one_query path raw n (some v) h hn (present hv) = rw (append_empty v) (
    split_query_some path (pair_of n v) raw (n ∷ []) h
    ∙ rw
        (
          split_on_single 38 (pair_of n v) (pair_lacks hn hv),
          read_pair n v [] (none ∷ []) (some v ∷ []) raw (n ∷ []) hn (set_only n v hv),
        )
        refl)

pub two_query :
    (path raw n m : String) (v w : Option String)
    → has_char 63 path ≡ false
    → IsName n
    → IsName m
    → (n == m) ≡ false
    → IsValue v
    → IsValue w
    → split_query (append path (write_query "?" ((n, v) ∷ (m, w) ∷ []))) raw (n ∷ m ∷ [])
      ≡ ok (path, v ∷ w ∷ [])
unfolding write_query read_pairs
two_query path raw n m none none h hn hm hne absent absent =
    rw (append_empty path) (split_query_plain path raw _ h)
two_query path raw n m (some v) none h hn hm hne (present hv) absent = rw (append_empty v) (
    split_query_some path (pair_of n v) raw (n ∷ m ∷ []) h
    ∙ rw
        (
          split_on_single 38 (pair_of n v) (pair_lacks hn hv),
          read_pair n v [] (none ∷ none ∷ []) (some v ∷ none ∷ []) raw _ hn (set_first n m v hv),
        )
        refl)
two_query path raw n m none (some w) h hn hm hne absent (present hw) = rw (append_empty w) (
    split_query_some path (pair_of m w) raw (n ∷ m ∷ []) h
    ∙ rw
        (
          split_on_single 38 (pair_of m w) (pair_lacks hm hw),
          read_pair m w [] (none ∷ none ∷ []) (none ∷ some w ∷ []) raw _ hm
              (set_second n m w none hne hw),
        )
        refl)
two_query path raw n m (some v) (some w) h hn hm hne (present hv) (present hw) =
    rw (append_empty w, sym (append-append n (String.◌∷◌ "=" v) (String.◌∷◌ "&" (pair_of m w))))
      (split_query_some path (joined_at "&" (pair_of n v) (pair_of m w)) raw (n ∷ m ∷ []) h
        ∙ rw
            (
              split_on-joined_at "&" (pair_of n v) (pair_of m w) (pair_lacks hn hv),
              split_on_single 38 (pair_of m w) (pair_lacks hm hw),
              read_pair n v (pair_of m w ∷ []) (none ∷ none ∷ []) (some v ∷ none ∷ []) raw _ hn
                  (set_first n m v hv),
              read_pair m w [] (some v ∷ none ∷ []) (some v ∷ some w ∷ []) raw _ hm
                  (set_second n m w (some v) hne hw),
            )
            refl)
