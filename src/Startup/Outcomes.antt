-- ===== src/Startup/Outcomes.antt =====
-- How a start ends (`load_initial` of crates/core/src/source.rs).
use ops_signal.Prelude.{
  Bool, true, false, none, some, List, [], ◌≡◌, ◌⊎◌, inl, inr, refl, Result, ok, err, arith,
  Bool-cases, Option-cases, All, String, ◌∷◌,
}
use ops_signal.Signal.{SignalError}
use ops_signal.Chain.{Loaded, Mode, startup, cache_only, ChainError, Files, Visited, texts}
use ops_signal.Chain.Load.{load}
use ops_signal.Chain.Ends.{Returns-walk}
use ops_signal.Chain.Visits.{Result-cases}
use ops_signal.Startup.{
  Start, Merged, merge_visited, built, or_cached, started, check_roots, cache_writes, load_initial,
}

module _ {S L V C : Type 0} (files : Files S L V C) where
  -- What is written to the cache for some files: the text of each that has a path there, in order.
  pub data Caches : List (Loaded S L) → List (String × String) → Type 0 where
    no_more : Caches [] []
    not_cached :
        {f : Loaded S L} {rest : List (Loaded S L)} {writes : List (String × String)}
        → files.cache_path f.source ≡ none
        → Caches rest writes
        → Caches (f ∷ rest) writes
    cached :
        {f : Loaded S L} {rest : List (Loaded S L)} {writes : List (String × String)}
        {path : String}
        → files.cache_path f.source ≡ some path
        → Caches rest writes
        → Caches (f ∷ rest) ((path, f.text) ∷ writes)

  pub cache_writes-Caches : (fs : List (Loaded S L)) → Caches fs (cache_writes files fs)
  unfolding cache_writes
  cache_writes-Caches [] = no_more
  cache_writes-Caches (f ∷ fs) = elim (Option-cases (files.cache_path f.source)) [
    | inl e ↦ rw (e, cache_writes) (not_cached e (cache_writes-Caches fs))
    | inr (path, e) ↦ rw (e, cache_writes) (cached e (cache_writes-Caches fs))
  ]

  -- The first root that this build cannot read, with the error that says so.
  pub data Refuses (e : SignalError) : List S → Type 0 where
    this : {root : S} {rest : List S} → files.check_supported root ≡ err e → Refuses e (root ∷ rest)
    later :
        {root : S} {rest : List S}
        → files.check_supported root ≡ ok tt
        → Refuses e rest
        → Refuses e (root ∷ rest)

  abbrev pub Readable : List S → Type 0
  Readable = All (λ root. files.check_supported root ≡ ok tt)

  check_roots-means :
      (roots : List S)
      → ((check_roots files roots ≡ ok tt) × Readable roots)
        ⊎ ((e : SignalError) × (check_roots files roots ≡ err e) × Refuses e roots)
  unfolding check_roots
  check_roots-means [] = inl (refl, tt)
  check_roots-means (root ∷ rest) = elim (Result-cases (files.check_supported root)) [
    | inl (e, h) ↦ inr (e, rw (h, check_roots) refl, this h)
    | inr (_, h) ↦ elim (check_roots-means rest) [
      | inl (k, all) ↦ inl (rw (h, check_roots) k, (h, all))
      | inr (e, k, r) ↦ inr (e, rw (h, check_roots) k, later h r)
    ]
  ]

  merge_visited-some :
      (r : Visited S L) (x : Result ChainError _)
      → r ≡ some x
      → (y : Result ChainError (Merged S L C)) × (merge_visited files r ≡ some y)
  merge_visited-some none x e = ground arith
  merge_visited-some (some (err e)) x h = (err e, refl)
  merge_visited-some (some (ok w)) x h = (_, refl)

  pub built-some :
      (mode : Mode) (roots : List S)
      → (y : Result ChainError (Merged S L C)) × (built files mode roots ≡ some y)
  unfolding built
  built-some mode roots =
      let (x, e) = Returns-walk files (load files mode) roots in merge_visited-some _ x e

  module _ (cache_on : Bool) (fallback : C) (roots : List S) where
    -- The start has a config that was merged, and the texts of its files, and cached the remote
    -- ones.
    abbrev pub IsMerged : Start C → Mode → Type 0
    IsMerged st mode =
        (b : Merged S L C) × (built files mode roots ≡ some (ok b))
        × (st.config ≡ b.0)
        × (st.texts ≡ some (texts files b.1))
        × Caches b.1 st.writes

    abbrev pub FailsWith : Bool → ChainError → Type 0
    FailsWith fatal e = (built files startup roots ≡ some (err e)) × (e.fatal ≡ fatal)

    -- The cached copies give no config: there is no cache, or they do not load or merge.
    abbrev pub LacksCopies : Type 0
    LacksCopies =
        (cache_on ≡ false) ⊎ ((y : ChainError) × (built files cache_only roots ≡ some (err y)))

    -- What each answer of a start means, if the roots are ones that this build can read.
    abbrev pub MeansReadable : Result SignalError (Start C) → Type 0
    MeansReadable (err e) = (x : ChainError) × FailsWith true x × (x.err ≡ e)
    MeansReadable (ok st) =
        IsMerged st startup
        ⊎ (((x : ChainError) × FailsWith false x)
            × ((IsMerged st cache_only × (cache_on ≡ true))
                ⊎ (LacksCopies × (st.config ≡ fallback) × (st.texts ≡ none) × (st.writes ≡ []))))

    -- What each answer of a start means.
    abbrev pub Means : Result SignalError (Start C) → Type 0
    Means r =
        ((e : SignalError) × Refuses e roots × (r ≡ err e)) ⊎ (Readable roots × MeansReadable r)

    abbrev by_default : Start C
    by_default = record { config = fallback; texts = none; writes = [] }

    abbrev merged_start : Merged S L C → Start C
    merged_start b = record {
      config = b.0;
      texts = some (texts files b.1);
      writes = cache_writes files b.1;
    }

    not_fatal :
        (x : ChainError) (second : Result ChainError (Merged S L C))
        → built files startup roots ≡ some (err x)
        → x.fatal ≡ false
        → cache_on ≡ true
        → built files cache_only roots ≡ some second
        → (r : Result SignalError (Start C)) × (started files fallback
              (or_cached files cache_on (some (err x)) (some second))
            ≡ some r)
          × MeansReadable r
    unfolding started or_cached
    not_fatal x (ok b) e t o f = (
      ok (merged_start b),
      rw (t, o, started) refl,
      inr ((x, (e, t)), inl ((b, f, refl, refl, cache_writes-Caches b.1), o)),
    )
    not_fatal x (err y) e t o f = (
      ok by_default,
      rw (t, o, started) refl,
      inr ((x, (e, t)), inr (inr (y, f), refl, refl, refl)),
    )

    -- From the two walks.
    Means-started :
        (first second : Result ChainError (Merged S L C))
        → built files startup roots ≡ some first
        → built files cache_only roots ≡ some second
        → (r : Result SignalError (Start C)) × (started files fallback
              (or_cached files cache_on (some first) (some second))
            ≡ some r)
          × MeansReadable r
    unfolding started or_cached
    Means-started (ok b) second e f = (_, refl, inl (b, e, refl, refl, cache_writes-Caches b.1))
    Means-started (err x) second e f = elim (Bool-cases x.fatal) [
      | inl t ↦ (err x.err, rw (t, started) refl, (x, (e, t), refl))
      | inr t ↦ elim (Bool-cases cache_on) [
        | inr o ↦ (
          ok by_default,
          rw (t, o, started) refl,
          inr ((x, (e, t)), inr (inl o, refl, refl, refl)),
        )
        | inl o ↦ not_fatal x second e t o f
      ]
    ]

    -- A start always ends. If this build cannot read some root, it ends with the error on the first such root. Otherwise it
    -- ends with the error of the startup walk and its merge if that is fatal, and with their
    -- config, their texts and the remote ones written to the cache if they succeed; if they fail
    -- but not fatally, with the same of the walk over the cached copies if there is a cache and
    -- that walk and its merge succeed, and, only if there is no cache or these fail, with the
    -- fallback, no texts and nothing written.
    pub load_initial-Means :
        (r : Result SignalError (Start C)) × (load_initial files cache_on fallback roots ≡ some r)
        × Means r
    unfolding load_initial
    load_initial-Means =
        let (first, e) = built-some startup roots in
        let (second, f) = built-some cache_only roots in
        let (r, g, m) = Means-started first second e f in
        elim (check_roots-means roots) [
          | inr (x, h, k) ↦ (err x, rw (h, load_initial) refl, inl (x, k, refl))
          | inl (h, k) ↦ (r, rw (h, load_initial) (rw (e, f) g), inr (k, m))
        ]
