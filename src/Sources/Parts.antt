-- ===== src/Sources/Parts.antt =====
-- What the parts of a location lack once `parse` of crates/core/src/source.rs has cut them out.
use ops_signal.Prelude.{
  ℕ, zero, suc, String, false, not, ◌&&◌, Option, none, some, List, [], ◌∷◌, ◌==◌, ◌≡◌, refl, ap,
  ◌∙◌, subst, arith, map, All, is_empty, is_none, has_char, split_once, split_on, split_once-lacks,
  split_once-lacks_other, split_on-lacks, joined_at, has_char-append, some-injective,
  split_once-none_lacks, ok-injective, ok_pair, ok, err, Bool-cases, Option-cases, inl, inr,
}
use ops_signal.Sources.{ConfigSource}
use ops_signal.Sources.Queries.{IsPart, IsValue, absent, present}
use ops_signal.Sources.Parse.{
  Parsed, bucket_of, split_bucket, set_value, read_pairs, with_path, name_and_value, split_query,
  value_at, as_bucket,
}

pub to_part : {n : ℕ} {p : String} → is_empty p ≡ false → has_char n p ≡ false → IsPart n p
to_part h k = record { filled = h; lacks = k }

-- The place between the first parts of a path.
pub record IsSplit (path b k : String) : Type 0 where
  pub first : IsPart 47 b
  pub filled : is_empty k ≡ false
  pub found : split_once 47 path ≡ some (b, k)

pub bucket_of-inv :
    (raw : String) (o : Option (String × String)) (b k : String)
    → bucket_of raw o ≡ ok (b, k)
    → (o ≡ some (b, k)) × (is_empty b ≡ false) × (is_empty k ≡ false)
unfolding bucket_of
bucket_of-inv raw none b k h = ground arith
bucket_of-inv raw (some (c, l)) b k h = ground arith

pub split_bucket-IsSplit :
    (path raw b k : String) → split_bucket path raw ≡ ok (b, k) → IsSplit path b k
unfolding split_bucket
split_bucket-IsSplit path raw b k h =
    let (e, x, y) = bucket_of-inv raw (split_once 47 path) b k h in
    record { first = to_part x (split_once-lacks 47 path b k e); filled = y; found = e }

pub as_bucket-inv :
    (make : String → String → ConfigSource) (r : Parsed (String × String)) (s : ConfigSource)
    → as_bucket make r ≡ ok s
    → (b : String) × (k : String) × (r ≡ ok (b, k)) × (make b k ≡ s)
as_bucket-inv make (err e) s h = ground arith
as_bucket-inv make (ok (b, k)) s h = (b, k, refl, ground arith)

-- The values of a query.
pub name_and_value-lacks :
    (pair : String) → has_char 38 pair ≡ false → has_char 38 (name_and_value pair).1 ≡ false
unfolding has_char
name_and_value-lacks pair h = elim (Option-cases (split_once 61 pair)) [
  | inl e ↦ rw e refl
  | inr (p, e) ↦ rw e (split_once-lacks_other 61 38 pair p.0 p.1 e h).1
]

pub set_value-All :
    (allowed : List String) (n v : String) (vs ws : List (Option String))
    → has_char 38 v ≡ false
    → All IsValue vs
    → set_value allowed n v vs ≡ some ws
    → All IsValue ws
unfolding set_value
set_value-All [] n v vs ws h hv e = ground arith
set_value-All (a ∷ as') n v [] ws h hv e = ground arith
set_value-All (a ∷ as') n v (o ∷ vs) ws h hv e = elim (Bool-cases (a == n)) [
  | inl k ↦ elim (Bool-cases (is_none o && not (is_empty v))) [
    | inl l ↦
        subst (All IsValue) (some-injective _ _ (rw (k, l, set_value) at e))
          (present (to_part (ground arith) h), hv.1)
    | inr l ↦ ground (arith, k, l)
  ]
  | inr k ↦ elim (Option-cases (set_value as' n v vs)) [
    | inl l ↦ ground (arith, k, l)
    | inr (us, l) ↦
        subst (All IsValue) (some-injective _ _ (rw (k, l) at e))
          (hv.0, set_value-All as' n v vs us h hv.1 l)
  ]
]

pub read_pairs-All :
    (allowed : List String) (raw : String) (pairs : List String) (vs ws : List (Option String))
    → All (λ p. has_char 38 p ≡ false) pairs
    → All IsValue vs
    → read_pairs allowed raw pairs vs ≡ ok ws
    → All IsValue ws
unfolding read_pairs
read_pairs-All allowed raw [] vs ws h hv e = subst (All IsValue) (ok-injective e) hv
read_pairs-All allowed raw (p ∷ pairs) vs ws h hv e =
    elim (Option-cases (set_value allowed (name_and_value p).0 (name_and_value p).1 vs)) [
      | inl k ↦ ground (arith, k)
      | inr (us, k) ↦
          read_pairs-All allowed raw pairs us ws h.1
            (set_value-All allowed (name_and_value p).0 (name_and_value p).1 vs us
              (name_and_value-lacks p h.0) hv k)
            (rw (k, read_pairs) at e)
    ]

pub absent-All : (allowed : List String) → All IsValue (map (λ _. none) allowed)
absent-All [] = tt
absent-All (a ∷ as') = (absent, absent-All as')

pub record IsQuery (path : String) (vs : List (Option String)) : Type 0 where
  pub lacks : has_char 63 path ≡ false
  pub values : All IsValue vs

pub with_path-inv :
    (p : String) (r : Parsed (List (Option String))) (path : String) (vs : List (Option String))
    → with_path p r ≡ ok (path, vs)
    → (p ≡ path) × (r ≡ ok vs)
with_path-inv p (err e) path vs h = ground arith
with_path-inv p (ok us) path vs h = ((ok_pair h).0, ap ok (ok_pair h).1)

pub split_query-IsQuery :
    (rest raw : String) (allowed : List String) (path : String) (vs : List (Option String))
    → split_query rest raw allowed ≡ ok (path, vs)
    → IsQuery path vs
unfolding split_query
split_query-IsQuery rest raw allowed path vs h = elim (Option-cases (split_once 63 rest)) [
  | inl e ↦
      let (x, y) = ok_pair (rw (e, split_query) at h) in
      record {
        lacks = subst (λ t. has_char 63 t ≡ false) x (split_once-none_lacks 63 rest e);
        values = subst (All IsValue) y (absent-All allowed);
      }
  | inr (p, e) ↦
      let (x, y) = with_path-inv p.0 _ path vs (rw (e, split_query) at h) in
      record {
        lacks = subst (λ t. has_char 63 t ≡ false) x (split_once-lacks 63 rest p.0 p.1 e);
        values =
            read_pairs-All allowed raw (split_on 38 p.1) (map (λ _. none) allowed) vs
              (split_on-lacks 38 p.1) (absent-All allowed) y;
      }
]

pub value_at-IsValue :
    (i : ℕ) (vs : List (Option String)) → All IsValue vs → IsValue (value_at i vs)
value_at-IsValue i [] h = absent
value_at-IsValue zero (v ∷ vs) h = h.0
value_at-IsValue (suc i) (v ∷ vs) h = value_at-IsValue i vs h.1

pub joined_lacks :
    (a b : String)
    → has_char 63 a ≡ false
    → has_char 63 b ≡ false
    → has_char 63 (joined_at "/" a b) ≡ false
unfolding has_char
joined_lacks a b h k = has_char-append 63 a (String.◌∷◌ "/" b) ∙ rw h k

pub split_lacks :
    {path b k : String}
    → IsSplit path b k
    → has_char 63 path ≡ false
    → has_char 63 (joined_at "/" b k) ≡ false
split_lacks {path} {b} {k} h l =
    let (x, y) = split_once-lacks_other 47 63 path b k h.found l in joined_lacks _ _ x y
