-- ===== src/Secrets/Frugal.antt =====
-- What `resolve` of crates/core/src/secrets.rs reads.
use ops_signal.Prelude.{
  ℕ, String, true, false, ◌||◌, Option, none, some, List, [], ◌∷◌, ◌==◌, ◌≡◌, refl, contains,
  IsUnique, IsUnique-concat_one, contains-concat_one, Result, ok, err, arith, is_some,
}
use ops_signal.Signal.{SignalError}
use ops_signal.Chain.{ChainError}
use ops_signal.Secrets.{SecretRef, url_of}
use ops_signal.Secrets.Resolve.{
  lookup, Store, Resolved, Found, kept, fresh_value, or_read, cached_read, or_failed, raw_value,
  field_of, add_value, Raw, and_add, and_read, read_refs, parse_refs, resolve_refs, resolve,
}

module _ (read : String → Result SignalError String) (get : String → String → Found)
    (ttl now : ℕ) where
  -- What a resolution has read, and the raw values that it has.
  record IsFrugal (raw : Raw) (st : Store) : Type 0 where
    once : IsUnique st.reads
    known : (url : String) → contains url st.reads ≡ true → is_some (lookup url raw) ≡ true

  abbrev Unread : Store → Type 0
  Unread st = IsUnique st.reads

  unread :
      (url : String) (raw : Raw) (st : Store)
      → IsFrugal raw st
      → lookup url raw ≡ none
      → contains url st.reads ≡ false
  unread url raw st f l = ground (arith, f.known url, l)

  -- A name that is found in more values.
  still_known :
      (u url value : String) (raw : Raw)
      → (is_some (lookup u raw) || url == u) ≡ true
      → is_some (lookup u ((url, value) ∷ raw)) ≡ true
  still_known u url value raw h = ground arith

  abbrev Next : (Raw → String → Store → Resolved Raw) → Type 0
  Next next =
      (raw : Raw) (value : String) (st : Store) → IsFrugal raw st → Unread (next raw value st).0

  kept-Unread :
      (url : String) (raw : Raw) (st : Store) (r : Result SignalError String)
      (next : Raw → String → Store → Resolved Raw)
      → IsFrugal raw st
      → lookup url raw ≡ none
      → Next next
      → Unread (and_read (or_failed url raw (kept read get ttl now url r st)) next).0
  kept-Unread url raw st (err e) next f l h =
      IsUnique-concat_one st.reads url (unread url raw st f l) f.once
  kept-Unread url raw st (ok value) next f l h = h _ _ _ (record {
    once = IsUnique-concat_one st.reads url (unread url raw st f l) f.once;
    known = λ u c.
        still_known u url value raw
          (ground (arith, contains-concat_one u st.reads url, c, f.known u));
  })

  or_read-Unread :
      (url : String) (raw : Raw) (st : Store) (o : Option String)
      (next : Raw → String → Store → Resolved Raw)
      → IsFrugal raw st
      → lookup url raw ≡ none
      → Next next
      → Unread (and_read (or_failed url raw (or_read read get ttl now url st o)) next).0
  or_read-Unread url raw st none next f l h = kept-Unread url raw st (read url) next f l h
  or_read-Unread url raw st (some value) next f l h = h _ _ _ (record {
    once = f.once;
    known = λ u c. still_known u url value raw (ground (arith, f.known u c));
  })

  raw_value-Unread :
      (url : String) (raw : Raw) (st : Store) (o : Option String)
      (next : Raw → String → Store → Resolved Raw)
      → lookup url raw ≡ o
      → IsFrugal raw st
      → Next next
      → Unread (and_read (raw_value read get ttl now url raw st o) next).0
  unfolding cached_read
  raw_value-Unread url raw st none next l f h =
      or_read-Unread url raw st (fresh_value read get ttl now (lookup url st.cache)) next f l h
  raw_value-Unread url raw st (some value) next l f h = h raw value st f

  and_add-Unread :
      (st : Store) (r : Result ChainError Raw) (next : Raw → Resolved Raw)
      → Unread st
      → ((values : Raw) → Unread (next values).0)
      → Unread (and_add st r next).0
  and_add-Unread st (err e) next u h = u
  and_add-Unread st (ok values) next u h = h values

  read_refs-Unread :
      (refs : List (String × SecretRef)) (raw values : Raw) (st : Store)
      → IsFrugal raw st
      → Unread (read_refs read get ttl now refs raw values st).0
  unfolding read_refs
  read_refs-Unread [] raw values st f = f.once
  read_refs-Unread ((name, r) ∷ rest) raw values st f =
      raw_value-Unread (url_of r) raw st (lookup (url_of r) raw) _ refl f (λ raw' value st' g.
        and_add-Unread st' (add_value name values (field_of read get ttl now name r value)) _ g.once
          (λ values'. read_refs-Unread rest raw' values' st' g))

  resolve_refs-Unread :
      (st : Store) (r : Result ChainError (List (String × SecretRef)))
      → IsFrugal [] st
      → Unread (resolve_refs read get ttl now st r).0
  resolve_refs-Unread st (err e) f = f.once
  resolve_refs-Unread st (ok refs) f = read_refs-Unread refs [] [] st f

  -- A resolution reads no secret twice from its store, however many placeholders name it or fields
  -- of it, whatever the cache holds, and also if reads fail.
  pub resolve-IsUnique :
      (check : SecretRef → Result SignalError (Unit {0})) (names : List String)
      (cache : List (String × (ℕ × String)))
      → IsUnique
          (resolve read get ttl now check names (record { cache = cache; reads = [] })).0.reads
  unfolding resolve
  resolve-IsUnique check names cache =
      resolve_refs-Unread _ (parse_refs check names)
        (record { once = tt; known = λ url c. ground (arith, c) })
