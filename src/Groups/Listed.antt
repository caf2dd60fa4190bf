-- ===== src/Groups/Listed.antt =====
-- The title, the lines and the metadata of a digest (`digest` of crates/core/src/group.rs).
use ops_signal.Prelude.{
  ℕ, zero, suc, ap₂, ◌+◌, ◌-◌, ◌≤◌, String, true, false, Option, some, List, [], ◌∷◌, ◌++◌, ◌≡◌,
  refl, map, take, length, length-append, ltb, ap, sym, ◌∙◌, inl, inr, ◌⊎◌, arith, format, join,
  decimal, if◌then◌else◌, none,
}
use ops_signal.Signal.{show_severity}
use ops_signal.Groups.{Member, Values}
use ops_signal.Groups.Fields.{Json}
use ops_signal.Groups.Times.{IsFirst, IsLast, first_at-bounds, last_at-bounds}
use ops_signal.Groups.Digest.{
  lines, listed_in_message, listed_in_metadata, first_at, last_at, json_text_of, digest_metadata,
  digest_input,
}

-- The first of some things, up to a limit, and those that are left.
pub record IsListed {A : Type 0} (limit : ℕ) (all shown rest : List A) : Type 0 where
  pub split : all ≡ shown ++ rest
  pub few : length shown ≤ limit
  pub full : (rest ≡ []) ⊎ (length shown ≡ limit)

pub take-IsListed :
    {A : Type 0} (limit : ℕ) (xs : List A)
    → (rest : List A) × IsListed limit xs (take limit xs) rest
take-IsListed zero xs = (xs, record { split = refl; few = omega arith; full = inr refl })
take-IsListed (suc n) [] = ([], record { split = refl; few = omega arith; full = inl refl })
take-IsListed (suc n) (x ∷ xs) =
    let (rest, l) = take-IsListed n xs in
    (
      rest,
      record {
        split = ap (λ t. x ∷ t) l.split;
        few = omega (arith, l.few);
        full = elim l.full [ inl e ↦ inl e | inr e ↦ inr (ap suc e) ];
      },
    )

-- The line on those that are left.
abbrev pub left_line : ℕ → List String
left_line zero = []
left_line (suc n) = format ("...and " ∷ decimal (suc n) ∷ " more" ∷ []) ∷ []

tail-left_line :
    (limit count left shown : ℕ)
    → count ≡ shown + left
    → shown ≤ limit
    → (left ≡ 0) ⊎ (shown ≡ limit)
    → (if ltb limit count
        then format ("...and " ∷ decimal (count - limit) ∷ " more" ∷ []) ∷ []
        else [])
      ≡ left_line left
tail-left_line limit count zero shown n few full =
    let small : ltb limit count ≡ false = ground (arith, n, few) in rw small refl
tail-left_line limit count (suc k) shown n few full =
    let large : ltb limit count ≡ true = ground (arith, n, full) in
    let left : count - limit ≡ suc k = ground (arith, n, full) in rw (large, left) refl

module _ {M : Type 0} where
  -- A member in the message, and the line on those that are left.
  abbrev pub bullet : Member M → String
  bullet m = format ("- [" ∷ show_severity m.signal.severity ∷ "] " ∷ m.signal.title ∷ [])

  abbrev pub more : List (Member M) → List String
  more rest = left_line (length rest)

  lines-more :
      (ms shown rest : List (Member M))
      → IsListed listed_in_message ms shown rest
      → shown ≡ take listed_in_message ms
      → lines ms ≡ map bullet shown ++ more rest
  unfolding lines
  lines-more ms shown rest l e =
      let n : length ms ≡ length shown + length rest =
        ap length l.split ∙ length-append shown rest in
      ap₂ (λ xs ys. map bullet xs ++ ys) (sym e)
        (tail-left_line listed_in_message (length ms) (length rest) (length shown) n l.few
          (elim l.full [ inl h ↦ inl (ap length h) | inr h ↦ inr h ]))

module _ {M : Type 0} (json : Json M) where
  abbrev pub text_or_null : Option String → M
  text_or_null none = json.null_json
  text_or_null (some s) = json.string s

  -- A member in the metadata.
  abbrev pub entry : Member M → M
  entry m = json.object (
      ("id", json.id_text m.signal.id)
      ∷ ("title", json.string m.signal.title)
      ∷ ("severity", json.string (show_severity m.signal.severity))
      ∷ ("source", json.string m.signal.source)
      ∷ ("event_type", json.string m.signal.event_type)
      ∷ ("timestamp", json.time_text m.signal.timestamp)
      ∷ [])

  -- `metadata.digest`, from the count, the group, the times and the members that it lists.
  abbrev pub digest_object : ℕ → Values → ℕ → ℕ → List (Member M) → M
  digest_object count by first last shown = json.object (
      (
        "digest",
        json.object (
            ("count", json.number count)
            ∷ ("group", json.object (map (λ f. (f.0, text_or_null f.1)) by))
            ∷ ("first_at", json.time_text first)
            ∷ ("last_at", json.time_text last)
            ∷ ("signals", json.array (map entry shown))
            ∷ []),
      )
      ∷ [])

  -- The title counts the members after the first, the message has a line for each of the first 20
  -- and one on how many are left, and the metadata counts all and has the group's values, the time
  -- of the first and of the last of the members, and the first 100.
  pub record Lists (by : Values) (m : Member M) (ms : List (Member M)) (title : String)
      (message : Option String) (metadata : M) : Type 0 where
    pub titled : title ≡ format (m.signal.title ∷ " (+" ∷ decimal (length ms) ∷ " more)" ∷ [])
    pub told : List (Member M)
    pub untold : List (Member M)
    pub lines_listed : IsListed 20 (m ∷ ms) told untold
    pub message_is : message ≡ some (join "\n" (map bullet told ++ more untold))
    pub first : ℕ
    pub last : ℕ
    pub is_first : IsFirst first (m ∷ ms)
    pub is_last : IsLast last (m ∷ ms)
    pub shown : List (Member M)
    pub left_out : List (Member M)
    pub entries_listed : IsListed 100 (m ∷ ms) shown left_out
    pub metadata_is : metadata ≡ digest_object (length (m ∷ ms)) by first last shown

  json_text_of-text_or_null :
      (by : Values)
      → map {B = String × M} (λ f. (f.0, json_text_of json f.1)) by
        ≡ map {B = String × M} (λ f. (f.0, text_or_null f.1)) by
  json_text_of-text_or_null [] = refl
  json_text_of-text_or_null ((name, none) ∷ by) =
      ap (λ t. (name, json.null_json) ∷ t) (json_text_of-text_or_null by)
  json_text_of-text_or_null ((name, some s) ∷ by) =
      ap (λ t. (name, json.string s) ∷ t) (json_text_of-text_or_null by)

  digest_metadata-eq :
      (by : Values) (m : Member M) (ms : List (Member M))
      → digest_metadata json by m ms
        ≡ digest_object
            (length (m ∷ ms))
            by
            (first_at m.signal.timestamp ms)
            (last_at m.signal.timestamp ms)
            (take listed_in_metadata (m ∷ ms))
  unfolding digest_metadata
  digest_metadata-eq by m ms =
      ap
        (λ group. json.object (
          (
            "digest",
            json.object (
                ("count", json.number (length (m ∷ ms)))
                ∷ ("group", json.object group)
                ∷ ("first_at", json.time_text (first_at m.signal.timestamp ms))
                ∷ ("last_at", json.time_text (last_at m.signal.timestamp ms))
                ∷ ("signals", json.array (map entry (take listed_in_metadata (m ∷ ms))))
                ∷ []),
          )
          ∷ []))
        (json_text_of-text_or_null by)

  pub digest_input-Lists :
      (key : String) (by : Values) (m : Member M) (ms : List (Member M))
      → Lists by m ms
          (digest_input json key by m ms).title
          (digest_input json key by m ms).message
          (digest_metadata json by m ms)
  unfolding digest_input
  digest_input-Lists key by m ms =
      let (rest, l) = take-IsListed listed_in_message (m ∷ ms) in
      let (left, k) = take-IsListed listed_in_metadata (m ∷ ms) in
      let (a, b, c) = first_at-bounds m.signal.timestamp ms in
      let (d, e, f) = last_at-bounds m.signal.timestamp ms in
      record {
        titled =
            ap (λ n. format (m.signal.title ∷ " (+" ∷ decimal n ∷ " more)" ∷ [])) (omega arith);
        told = take listed_in_message (m ∷ ms);
        untold = rest;
        lines_listed = l;
        message_is = ap (λ t. some (join "\n" t)) (lines-more (m ∷ ms) _ rest l refl);
        first = first_at m.signal.timestamp ms;
        last = last_at m.signal.timestamp ms;
        is_first = ((a, b), c);
        is_last = ((d, e), f);
        shown = take listed_in_metadata (m ∷ ms);
        left_out = left;
        entries_listed = k;
        metadata_is = digest_metadata-eq by m ms;
      }
