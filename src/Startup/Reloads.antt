-- ===== src/Startup/Reloads.antt =====
-- One poll of the reloader (`Reloader::check` of crates/core/src/reload.rs).
use ops_signal.Prelude.{
  String, true, false, Option, some, List, [], ◌∷◌, ◌≡◌, ◌⊎◌, inl, inr, refl, Result, ok, err,
  arith, ap, sym, ◌∙◌, subst, Bool-cases, eq_refl, eq_iff, and-eq-true, ap₂, ◌==◌, ◌≢◌, none, ◌&&◌,
}
use ops_signal.Chain.{reload, ChainError, Files, Walk, merge, texts, walk}
use ops_signal.Chain.Load.{load}
use ops_signal.Chain.Ends.{Returns-walk}
use ops_signal.Chain.Visits.{Result-cases}
use ops_signal.Startup.Outcomes.{Caches, cache_writes-Caches}
use ops_signal.Startup.{Texts, Reloader, same_texts, is_last, apply_files, check}

same_texts_refl : (ts : Texts) → same_texts ts ts ≡ true
same_texts_refl [] = refl
same_texts_refl ((a, b, c) ∷ ts) =
    ground (arith, eq_refl a, eq_refl b, eq_refl c, same_texts_refl ts)

same_texts-eq : (ts us : Texts) → same_texts ts us ≡ true → ts ≡ us
same_texts-eq [] [] h = refl
same_texts-eq [] (_ ∷ _) h = ground arith
same_texts-eq (_ ∷ _) [] h = ground arith
same_texts-eq ((a, b, c) ∷ ts) ((d, e, f) ∷ us) h =
    let (r, k) = and-eq-true (a == d && b == e && c == f) (same_texts ts us) h in
    let (q, z) = and-eq-true (a == d && b == e) (c == f) r in
    let (x, y) = and-eq-true (a == d) (b == e) q in
    ap₂ {C = Texts} (λ t rest. t ∷ rest)
      (λ i. ((eq_iff a d).0 x i, (eq_iff b e).0 y i, (eq_iff c f).0 z i)) (same_texts-eq ts us k)

is_last-eq : (last : Option Texts) (ts : Texts) → is_last last ts ≡ true → last ≡ some ts
is_last-eq none ts h = ground arith
is_last-eq (some us) ts h = ap some (same_texts-eq us ts h)

not_last : (last : Option Texts) (ts : Texts) → is_last last ts ≡ false → last ≢ some ts
not_last last ts h = λ e. cc (h, subst (λ o. is_last o ts ≡ true) (sym e) (same_texts_refl ts))

module _ {S L V C P : Type 0} (files : Files S L V C) (from_config : C → P) (r : Reloader S P) where
  abbrev walked : Option (Result ChainError (Walk S L))
  walked = walk files (load files reload) r.roots

  -- Why a poll keeps what there is: the walk fails, or its files are the last ones, or do not
  -- merge.
  abbrev pub Keeps : Type 0
  Keeps =
      ((e : ChainError) × (walked ≡ some (err e)))
      ⊎ ((w : Walk S L) × (walked ≡ some (ok w))
          × ((r.last_texts ≡ some (texts files w.order))
              ⊎ ((e : ChainError) × (merge files w.order ≡ err e))))

  -- The poll had to keep what there is; it changed nothing and wrote nothing.
  abbrev pub IsKept : Reloader S P × List (String × String) → Type 0
  IsKept x = Keeps × (x.0 ≡ r) × (x.1 ≡ [])

  -- The poll put the files of a walk in place: they merge to a config, and are not the last ones.
  pub record IsReplaced (x : Reloader S P × List (String × String)) : Type 0 where
    pub after : Walk S L
    pub walked : walk files (load files reload) r.roots ≡ some (ok after)
    pub config : C
    pub merged : merge files after.order ≡ ok config
    pub changed : r.last_texts ≢ some (texts files after.order)
    pub pipeline : x.0.pipeline ≡ from_config config
    pub last_texts : x.0.last_texts ≡ some (texts files after.order)
    pub roots : x.0.roots ≡ r.roots
    pub writes : Caches files after.order x.1

  apply_files-cases :
      (w : Walk S L)
      → walk files (load files reload) r.roots ≡ some (ok w)
      → IsKept (apply_files files from_config w.order r)
        ⊎ IsReplaced (apply_files files from_config w.order r)
  unfolding apply_files
  apply_files-cases w h = elim (Bool-cases (is_last r.last_texts (texts files w.order))) [
    | inl e ↦ inl ((inr (w, h, inl (is_last-eq _ _ e))), rw e refl, rw e refl)
    | inr e ↦ elim (Result-cases (merge files w.order)) [
      | inl (x, m) ↦ inl ((inr (w, h, inr (x, m))), rw (e, m) refl, rw (e, m) refl)
      | inr (c, m) ↦ inr (
          rw (e, m)
            (record {
              after = w;
              walked = h;
              config = c;
              merged = m;
              changed = not_last _ _ e;
              pipeline = refl;
              last_texts = refl;
              roots = refl;
              writes = cache_writes-Caches files w.order;
            }))
    ]
  ]

  check-cases :
      (x : Result ChainError (Walk S L))
      → walk files (load files reload) r.roots ≡ some x
      → (y : Reloader S P × List (String × String)) × (check files from_config r ≡ some y)
        × (IsKept y ⊎ IsReplaced y)
  unfolding check
  check-cases (err e) h = ((r, []), rw (h, check) refl, inl (inl (e, h), refl, refl))
  check-cases (ok w) h =
      (apply_files files from_config w.order r, rw (h, check) refl, apply_files-cases w h)

  check-walked :
      (z : Reloader S P) (w : Walk S L)
      → walk files (load files reload) z.roots ≡ some (ok w)
      → check files from_config z ≡ some (apply_files files from_config w.order z)
  unfolding check
  check-walked z w h = rw (h, check) refl

  settled :
      (y : Reloader S P × List (String × String)) (x : IsReplaced y)
      → apply_files files from_config x.after.order y.0 ≡ (y.0, [])
  unfolding apply_files
  settled y x = rw (x.last_texts, same_texts_refl (texts files x.after.order)) refl

  again :
      (y : Reloader S P × List (String × String))
      → IsKept y ⊎ IsReplaced y
      → check files from_config r ≡ some y
      → check files from_config y.0 ≡ some (y.0, [])
  unfolding check apply_files
  again y (inl (_, k, n)) e =
      subst (λ z. check files from_config z ≡ some (z, [])) (sym k) (e ∙ ap some (λ i. (k i, n i)))
  again y (inr x) e =
      check-walked y.0 x.after (ap (walk files (load files reload)) x.roots ∙ x.walked)
      ∙ ap some (settled y x)

  -- A poll always ends. If its walk fails, or finds the texts of the last one, or files that do not
  -- merge, it keeps the pipeline and everything else and writes nothing. Otherwise it puts the
  -- pipeline of the config in place to which the files of the walk merge, remembers their texts and
  -- writes the remote ones to the cache. A second poll, with the files as they are, then changes
  -- nothing and writes nothing.
  pub check_settles :
      (y : Reloader S P × List (String × String)) × (check files from_config r ≡ some y)
      × (IsKept y ⊎ IsReplaced y)
      × (check files from_config y.0 ≡ some (y.0, []))
  check_settles =
      let (x, h) = Returns-walk files (load files reload) r.roots in
      let (y, e, c) = check-cases x h in (y, e, c, again y c e)
