-- ===== src/Sources/Siblings.antt =====
-- Where `join_key` and `flat_name` of crates/core/src/source.rs lead, segment by segment.
use mathlib.Core.List.{reverse, reverse-reverse}
use ops_signal.Prelude.{
  ◌%◌, String, true, false, ◌||◌, Option, none, some, List, [], ◌∷◌, ◌==◌, ◌≡◌, ◌≢◌, refl, sym, ap,
  ◌∙◌, subst, arith, length, eqb, is_empty, has_char, split_on, split_on-nonempty, join, ok, err,
  Bool-cases, inl, inr, ok-injective, some-injective, eq_iff,
}
use ops_signal.Sources.{ConfigSource}
use ops_signal.Sources.Parse.{Parsed}
use ops_signal.Sources.Join.{
  key_segments, tail_of, and_make, key_of, join_key, flat_name, a_document,
}

-- From the folders that one is in, the innermost first, along segments of a reference: an empty one
-- and `.` stay, `..` leaves a folder, any other goes into one.
pub data Steps : List String → List String → List String → Type 0 where
  stop : {here : List String} → Steps here [] here
  stay :
      {here there rest : List String} {segment : String}
      → (is_empty segment || segment == ".") ≡ true
      → Steps here rest there
      → Steps here (segment ∷ rest) there
  up :
      {here there rest : List String} {folder segment : String}
      → segment ≡ ".."
      → Steps here rest there
      → Steps (folder ∷ here) (segment ∷ rest) there
  into :
      {here there rest : List String} {segment : String}
      → (is_empty segment || segment == ".") ≡ false
      → segment ≢ ".."
      → Steps (segment ∷ here) rest there
      → Steps here (segment ∷ rest) there

climb :
    (here : List String) (segment : String) (rest there : List String)
    → segment ≡ ".."
    → ((before : List String) → key_segments before rest ≡ some there → Steps before rest there)
    → (elim here [ [] ↦ none | _ ∷ before ↦ key_segments before rest ]) ≡ some there
    → Steps here (segment ∷ rest) there
climb [] segment rest there e ih h = ground arith
climb (folder ∷ before) segment rest there e ih h = up e (ih before h)

key_segments-Steps :
    (here segments there : List String)
    → key_segments here segments ≡ some there
    → Steps here segments there
unfolding key_segments
key_segments-Steps here [] there h = subst (Steps here []) (some-injective _ _ h) stop
key_segments-Steps here (segment ∷ rest) there h =
    elim (Bool-cases (is_empty segment || segment == ".")) [
      | inl e ↦ stay e (key_segments-Steps here rest there (rw (e, key_segments) at h))
      | inr e ↦ elim (Bool-cases (segment == "..")) [
        | inr k ↦
            into e (λ p. cc (k, (eq_iff segment "..").1 p))
              (key_segments-Steps (segment ∷ here) rest there (rw (e, k, key_segments) at h))
        | inl k ↦
            climb here segment rest there ((eq_iff segment "..").0 k)
              (λ before. key_segments-Steps before rest there) (rw (e, k, key_segments) at h)
      ]
    ]

-- The key is the one that the reference names from the folder of another key.
pub record IsSibling (key reference other : String) : Type 0 where
  pub last : String
  pub folder : List String
  pub in_folder : reverse (split_on 47 key) ≡ last ∷ folder
  pub name : String
  pub there : List String
  pub steps : Steps folder (split_on 47 reference) (name ∷ there)
  pub other_is : other ≡ join "/" (reverse (name ∷ there))

reverse_cases :
    (xs ys : List String)
    → reverse xs ≡ ys
    → (t : String) × (ts : List String) × (xs ≡ t ∷ ts)
    → (last : String) × (folder : List String) × (ys ≡ last ∷ folder)
reverse_cases xs (y ∷ ys) e n = (y, ys, refl)
reverse_cases xs [] e (t, ts, n) =
    let z : xs ≡ [] = sym (reverse-reverse xs) ∙ ap reverse e in ground (arith, z, n)

tail_of-cases :
    (key : String)
    → (last : String) × (folder : List String) × (reverse (split_on 47 key) ≡ last ∷ folder)
tail_of-cases key =
    reverse_cases (split_on 47 key) (reverse (split_on 47 key)) refl (split_on-nonempty 47 key)

module _ (self : ConfigSource) (reference : String) where
  key_of-IsSibling :
      (key other last : String) (folder : List String) (there : Option (List String))
      → reverse (split_on 47 key) ≡ last ∷ folder
      → key_segments folder (split_on 47 reference) ≡ there
      → key_of self reference there ≡ ok other
      → IsSibling key reference other
  key_of-IsSibling key other last folder none e k h = ground arith
  key_of-IsSibling key other last folder (some []) e k h = ground arith
  key_of-IsSibling key other last folder (some (name ∷ there)) e k h = record {
    last = last;
    folder = folder;
    in_folder = e;
    name = name;
    there = there;
    steps = key_segments-Steps folder (split_on 47 reference) (name ∷ there) k;
    other_is = sym (ok-injective h);
  }

  pub join_key-IsSibling :
      (key other : String) → join_key self reference key ≡ ok other → IsSibling key reference other
  unfolding join_key
  join_key-IsSibling key other h =
      let (last, folder, e) = tail_of-cases key in
      key_of-IsSibling key other last folder (key_segments folder (split_on 47 reference)) e refl (
        subst
          (λ t. key_of self reference (key_segments (tail_of t) (split_on 47 reference)) ≡ ok other)
          e h)

  pub flat_name_same : (other : String) → flat_name self reference ≡ ok other → other ≡ reference
  unfolding flat_name
  flat_name_same other h =
      elim (Bool-cases (is_empty reference || has_char 47 reference || has_char 63 reference)) [
        | inl e ↦ ground (arith, rw (e, flat_name) at h)
        | inr e ↦ sym (ok-injective (rw (e, flat_name) at h))
      ]

pub and_make-inv :
    (make : String → ConfigSource) (o : Parsed String) (s : ConfigSource)
    → and_make make o ≡ ok s
    → (name : String) × (o ≡ ok name) × (make name ≡ s)
and_make-inv make (err e) s h = ground arith
and_make-inv make (ok name) s h = (name, refl, ok-injective h)

pub a_document-inv :
    (self : ConfigSource) (r : String) (make : String → ConfigSource) (o : Parsed String)
    (s : ConfigSource)
    → a_document self r make o ≡ ok s
    → (name : String) × (o ≡ ok name) × (length (split_on 47 name) % 2 ≡ 0) × (make name ≡ s)
a_document-inv self r make (err e) s h = ground arith
a_document-inv self r make (ok d) s h = elim (Bool-cases (eqb (length (split_on 47 d) % 2) 0)) [
  | inl e ↦ (d, refl, ground (arith, e), ok-injective (rw e at h))
  | inr e ↦ ground (arith, rw e at h)
]
