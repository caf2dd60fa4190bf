-- ===== src/Secrets/Resolve.antt =====
-- `resolve` and `cached_read` of crates/core/src/secrets.rs.
use ops_signal.Prelude.{
  ℕ, ◌-◌, String, Bool, true, false, not, Option, none, some, List, [], ◌∷◌, ◌++◌, ◌==◌, ltb, eqb,
  or_default, trim, format, Result, ok, err, if◌then◌else◌,
}
use ops_signal.Signal.{SignalError}
use ops_signal.Chain.{config_err, ChainError}
use ops_signal.Chain.Load.{message}
use ops_signal.Secrets.{SecretRef, url_of, parse_ref, cloud_name}
use ops_signal.Sources.Options.{read_u64}

-- A value by its name.
abbrev pub lookup {ℓ} : {A : Type ℓ} → String → List (String × A) → Option A
lookup name [] = none
lookup name ((n, a) ∷ rest) = if n == name then some a else lookup name rest

-- The values that were read lately, each with its time, and the URLs that were read from a store,
-- in order.
pub record Store : Type 0 where
  pub cache : List (String × (ℕ × String))
  pub reads : List String

abbrev pub Resolved : Type 0 → Type 0
Resolved A = Store × Result ChainError A

-- `json_field`, by what the JSON library finds: not JSON at all, no such field or null, or the text
-- of the field.
pub data Found : Type 0 where
  not_json no_field : Found
  field_text : String → Found

unfoldable pub json_field : Found → String → Result String String
json_field not_json field =
    err (format ("the secret is not JSON, so it has no field '" ∷ field ∷ "'" ∷ []))
json_field no_field field = err (format ("the secret has no field '" ∷ field ∷ "'" ∷ []))
json_field (field_text text) field = ok text

abbrev pub Raw : Type 0
Raw = List (String × String)

abbrev pub unresolved : String → SignalError → ChainError
unresolved url e = record { err = config_err ("${" ∷ url ∷ "}: " ∷ message e ∷ []); fatal = false }

-- The raw value of a secret, from those that this resolution has, or by a read.
abbrev pub or_failed :
    String
    → List (String × String)
    → Store × Result SignalError String
    → Store × Result ChainError (List (String × String) × String)
or_failed url raw (st, err e) = (st, err (unresolved url e))
or_failed url raw (st, ok value) = (st, ok ((url, value) ∷ raw, value))

-- The value that a reference means.
abbrev pub named_error : String → Result String String → Result ChainError String
named_error name (ok value) = ok value
named_error name (err e) =
    err (record { err = config_err ("${" ∷ name ∷ "}: " ∷ e ∷ []); fatal = false })

abbrev pub add_value :
    String
    → List (String × String)
    → Result ChainError String
    → Result ChainError (List (String × String))
add_value name values (err e) = err e
add_value name values (ok value) = ok ((name, value) ∷ values)

abbrev pub and_add : Store → Result ChainError Raw → (Raw → Resolved Raw) → Resolved Raw
and_add st (err e) next = (st, err e)
and_add st (ok values) next = next values

abbrev pub and_read :
    Store × Result ChainError (Raw × String) → (Raw → String → Store → Resolved Raw) → Resolved Raw
and_read (st, err e) next = (st, err e)
and_read (st, ok (raw, value)) next = next raw value st

-- What goes wrong before a store is asked is fatal.
abbrev pub fatal {ℓ} : {A : Type ℓ} → Result SignalError A → Result ChainError A
fatal (err e) = err (record { err = e; fatal = true })
fatal (ok a) = ok a

abbrev pub with_ref :
    String → SecretRef → Result SignalError (Unit {0}) → Result SignalError (String × SecretRef)
with_ref name r (err e) = err e
with_ref name r (ok _) = ok (name, r)

abbrev pub supported_ref :
    (SecretRef → Result SignalError (Unit {0}))
    → String
    → Result SignalError SecretRef
    → Result SignalError (String × SecretRef)
supported_ref check name (err e) = err e
supported_ref check name (ok r) = with_ref name r (check r)

abbrev pub cons_ref :
    Result ChainError (String × SecretRef)
    → Result ChainError (List (String × SecretRef))
    → Result ChainError (List (String × SecretRef))
cons_ref (err e) rs = err e
cons_ref (ok r) (err e) = err e
cons_ref (ok r) (ok rs) = ok (r ∷ rs)

unfoldable pub parse_refs :
    (SecretRef → Result SignalError (Unit {0}))
    → List String
    → Result ChainError (List (String × SecretRef))
parse_refs check [] = ok []
parse_refs check (name ∷ names) =
    cons_ref (fatal (supported_ref check name (parse_ref name))) (parse_refs check names)

module _ (read : String → Result SignalError String) (get : String → String → Found)
    (ttl now : ℕ) where
  abbrev pub kept : String → Result SignalError String → Store → Store × Result SignalError String
  kept url (err e) st = (record st { reads = st.reads ++ url ∷ [] }, err e)
  kept url (ok value) st = (
    record {
      cache = if not (eqb ttl 0) then (url, (now, value)) ∷ st.cache else st.cache;
      reads = st.reads ++ url ∷ [];
    },
    ok value,
  )

  -- A value in the cache, if it is not too old.
  abbrev pub fresh_value : Option (ℕ × String) → Option String
  fresh_value none = none
  fresh_value (some (at, value)) = if ltb (now - at) ttl then some value else none

  abbrev pub or_read : String → Store → Option String → Store × Result SignalError String
  or_read url st (some value) = (st, ok value)
  or_read url st none = kept url (read url) st

  -- `cached_read`.
  unfoldable pub cached_read : String → Store → Store × Result SignalError String
  cached_read url st = or_read url st (fresh_value (lookup url st.cache))

  abbrev pub raw_value :
      String
      → List (String × String)
      → Store
      → Option String
      → Store × Result ChainError (List (String × String) × String)
  raw_value url raw st (some value) = (st, ok (raw, value))
  raw_value url raw st none = or_failed url raw (cached_read url st)

  unfoldable pub field_of : String → SecretRef → String → Result ChainError String
  field_of name r value = elim r.field [
    | none ↦ ok value
    | some field ↦ named_error name (json_field (get value field) field)
  ]

  -- The loop of `resolve` over the references.
  unfoldable pub read_refs : List (String × SecretRef) → Raw → Raw → Store → Resolved Raw
  read_refs [] raw values st = (st, ok values)
  read_refs ((name, r) ∷ rest) raw values st =
      and_read (raw_value (url_of r) raw st (lookup (url_of r) raw)) (λ raw' value st'.
        and_add st' (add_value name values (field_of name r value))
          (λ values'. read_refs rest raw' values' st'))

  abbrev pub resolve_refs : Store → Result ChainError (List (String × SecretRef)) → Resolved Raw
  resolve_refs st (err e) = (st, err e)
  resolve_refs st (ok refs) = read_refs refs [] [] st

  -- `resolve`; `check` is `check_supported` in this build.
  unfoldable pub resolve :
      (SecretRef → Result SignalError (Unit {0})) → List String → Store → Resolved Raw
  resolve check names st = resolve_refs st (parse_refs check names)

-- `ttl`, by `$SIGNAL_SECRETS_TTL_SECS`.
abbrev pub default_ttl : ℕ
default_ttl = 300

unfoldable pub ttl_of : Option String → ℕ
ttl_of none = default_ttl
ttl_of (some raw) = or_default default_ttl (read_u64 (trim raw))

-- `read`, for what reads a reference: the code of its cloud, or an add-on on its URL.
abbrev pub read_parsed :
    (SecretRef → Result SignalError String)
    → Result SignalError SecretRef
    → Result SignalError String
read_parsed ask (err e) = err e
read_parsed ask (ok r) = ask r

unfoldable pub read_secret :
    (String → Bool)
    → (SecretRef → Result SignalError String)
    → (String → String → Result SignalError String)
    → String
    → Result SignalError String
read_secret built_in native external url =
    read_parsed (λ r. if built_in (cloud_name r) then native r else external r.scheme (url_of r))
      (parse_ref url)
