-- ===== src/Chain/Fallback.antt =====
-- Which copy of a file a chain takes (`Walk::load` of crates/core/src/chain.rs).
use ops_signal.Prelude.{
  true, false, ◌≡◌, ◌≢◌, ◌⊎◌, ◌↔◌, inl, inr, refl, Result, ok, err, arith, Bool-cases,
}
use ops_signal.Signal.{SignalError}
use ops_signal.Chain.{Mode, startup, cache_only, reload, ChainError, Files, Built}
use ops_signal.Chain.Load.{
  Failure, text_failure, secrets_failure, read_cache, read_fresh, only_cached, instead, load_fresh,
  load,
}

module _ {S L V C : Type 0} (files : Files S L V C) where
  -- The fresh text was not read or not understood.
  abbrev pub Misses : S → Type 0
  Misses s = (e : SignalError) × (read_fresh files s ≡ err (text_failure e))

  -- What a mode takes a file from.
  pub data Gives (s : S) (b : Built L) : Mode → Type 0 where
    local_copy :
        {mode : Mode} → files.is_remote s ≡ false → read_fresh files s ≡ ok b → Gives s b mode
    at_startup : files.is_remote s ≡ true → read_fresh files s ≡ ok b → Gives s b startup
    at_reload : files.is_remote s ≡ true → read_fresh files s ≡ ok b → Gives s b reload
    instead_of : files.is_remote s ≡ true → Misses s → read_cache files s ≡ ok b → Gives s b startup
    cached : files.is_remote s ≡ true → read_cache files s ≡ ok b → Gives s b cache_only

  -- Secrets could not be resolved, and nobody but a person can help.
  abbrev pub LacksSecrets : S → Type 0
  LacksSecrets s =
      (f : ChainError) × (f.fatal ≡ true)
      × ((read_fresh files s ≡ err (secrets_failure f))
          ⊎ (read_cache files s ≡ err (secrets_failure f)))

  -- How the copies turn out.
  instead_ok :
      (e : SignalError) (b : Built L) (r : Result Failure (Built L))
      → instead files e r ≡ ok b
      → r ≡ ok b
  unfolding instead
  instead_ok e b (ok c) h = ground arith
  instead_ok e b (err (secrets_failure f)) h = ground arith
  instead_ok e b (err (text_failure f)) h = ground arith

  fresh-Gives :
      (mode : Mode) (s : S) (b : Built L) (r : Result Failure (Built L))
      → mode ≢ cache_only
      → files.is_remote s ≡ true
      → read_fresh files s ≡ r
      → load_fresh files mode s r ≡ ok b
      → Gives s b mode
  unfolding load_fresh
  fresh-Gives startup s b (ok c) n m e h = at_startup m (ground arith)
  fresh-Gives startup s b (err (secrets_failure f)) n m e h = ground arith
  fresh-Gives startup s b (err (text_failure f)) n m e h =
      instead_of m (f, e) (instead_ok f b (read_cache files s) (rw m at h))
  fresh-Gives reload s b (ok c) n m e h = at_reload m (ground arith)
  fresh-Gives reload s b (err (secrets_failure f)) n m e h = ground arith
  fresh-Gives reload s b (err (text_failure f)) n m e h = ground arith
  fresh-Gives cache_only s b r n m e h = absurd (n refl)

  local-Gives :
      (mode : Mode) (s : S) (b : Built L) (r : Result Failure (Built L))
      → files.is_remote s ≡ false
      → read_fresh files s ≡ r
      → load_fresh files mode s r ≡ ok b
      → Gives s b mode
  unfolding load_fresh
  local-Gives mode s b (ok c) m e h = local_copy m (ground arith)
  local-Gives mode s b (err (secrets_failure f)) m e h = ground arith
  local-Gives mode s b (err (text_failure f)) m e h = ground arith

  cached_ok : (b : Built L) (r : Result Failure (Built L)) → only_cached files r ≡ ok b → r ≡ ok b
  unfolding only_cached
  cached_ok b (ok c) h = ground arith
  cached_ok b (err (secrets_failure f)) h = ground arith
  cached_ok b (err (text_failure f)) h = ground arith

  load_up : (mode : Mode) (s : S) (b : Built L) → load files mode s ≡ ok b → Gives s b mode
  unfolding load
  load_up mode s b h = elim (Bool-cases (files.is_remote s)) [
    | inl m ↦
        elim mode as (λ k. load files k s ≡ ok b → Gives s b k) [
          | startup ↦ λ h. fresh-Gives startup s b (read_fresh files s) (λ q. ground arith) m refl h
          | reload ↦ λ h. fresh-Gives reload s b (read_fresh files s) (λ q. ground arith) m refl h
          | cache_only ↦ λ h. cached m (cached_ok b (read_cache files s) (rw (m, load) at h))
        ]
          h
    | inr m ↦
        elim mode as (λ k. load files k s ≡ ok b → Gives s b k) [
          | startup ↦ λ h. local-Gives startup s b (read_fresh files s) m refl h
          | reload ↦ λ h. local-Gives reload s b (read_fresh files s) m refl h
          | cache_only ↦
              λ h. local-Gives cache_only s b (read_fresh files s) m refl (rw (m, load) at h)
        ]
          h
  ]

  load_down : (mode : Mode) (s : S) (b : Built L) → Gives s b mode → load files mode s ≡ ok b
  unfolding load load_fresh instead only_cached
  load_down startup s b (local_copy m e) = rw (e, load_fresh) refl
  load_down reload s b (local_copy m e) = rw (e, load_fresh) refl
  load_down cache_only s b (local_copy m e) = rw (m, e, load, load_fresh) refl
  load_down _ s b (at_startup m e) = rw (e, load_fresh) refl
  load_down _ s b (at_reload m e) = rw (e, load_fresh) refl
  load_down _ s b (instead_of m (f, n) e) = rw (n, load_fresh) (rw (m, e, instead) refl)
  load_down _ s b (cached m e) = rw (m, e, only_cached) refl

  -- A file is loaded from the fresh text if it is local, or if it is remote at startup and at a
  -- reload; from the cached copy if it is remote and only the cache is read, or at startup when
  -- the fresh text of a remote file was not read or not understood; and from nothing else.
  pub load-Gives : (mode : Mode) (s : S) (b : Built L) → (load files mode s ≡ ok b) ↔ Gives s b mode
  load-Gives mode s b = (load_up mode s b, load_down mode s b)

  instead_fatal :
      (s : S) (e : ChainError) (x : SignalError) (r : Result Failure (Built L))
      → read_cache files s ≡ r
      → e.fatal ≡ true
      → instead files x r ≡ err e
      → LacksSecrets s
  unfolding instead
  instead_fatal s e x (ok c) q f h = ground arith
  instead_fatal s e x (err (secrets_failure y)) q f h = (y, ground arith, inr q)
  instead_fatal s e x (err (text_failure y)) q f h = ground arith

  cached_fatal :
      (s : S) (e : ChainError) (r : Result Failure (Built L))
      → read_cache files s ≡ r
      → e.fatal ≡ true
      → only_cached files r ≡ err e
      → LacksSecrets s
  unfolding only_cached
  cached_fatal s e (ok c) q f h = ground arith
  cached_fatal s e (err (secrets_failure y)) q f h = (y, ground arith, inr q)
  cached_fatal s e (err (text_failure y)) q f h = ground arith

  fresh_fatal :
      (mode : Mode) (s : S) (e : ChainError) (r : Result Failure (Built L))
      → files.is_remote s ≡ true
      → read_fresh files s ≡ r
      → e.fatal ≡ true
      → load_fresh files mode s r ≡ err e
      → LacksSecrets s
  unfolding load_fresh
  fresh_fatal mode s e (ok c) m q f h = ground arith
  fresh_fatal mode s e (err (secrets_failure x)) m q f h = (x, ground arith, inl q)
  fresh_fatal startup s e (err (text_failure x)) m q f h =
      instead_fatal s e x (read_cache files s) refl f (rw m at h)
  fresh_fatal reload s e (err (text_failure x)) m q f h = ground arith
  fresh_fatal cache_only s e (err (text_failure x)) m q f h = ground arith

  -- Loading a remote file fails for good only for the sake of its secrets: if it cannot be fetched,
  -- read or understood, and no cached copy can, then the error is not fatal, in every mode.
  pub load_fatal :
      (mode : Mode) (s : S) (e : ChainError)
      → files.is_remote s ≡ true
      → load files mode s ≡ err e
      → e.fatal ≡ true
      → LacksSecrets s
  unfolding load
  load_fatal startup s e m h f = fresh_fatal startup s e (read_fresh files s) m refl f h
  load_fatal reload s e m h f = fresh_fatal reload s e (read_fresh files s) m refl f h
  load_fatal cache_only s e m h f = cached_fatal s e (read_cache files s) refl f (rw (m, load) at h)
