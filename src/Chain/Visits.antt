-- ===== src/Chain/Visits.antt =====
-- What a visit that succeeds has done (`Walk::visit` of crates/core/src/chain.rs), as equations.
use ops_signal.Prelude.{
  ℕ, suc, ◌<◌, String, true, false, none, some, List, [], ◌∷◌, ◌++◌, ◌≡◌, refl, ◌⊎◌, inl, inr,
  length, contains, Result, ok, err, Option-cases, arith, ap,
}
use ops_signal.Signal.{SignalError}
use ops_signal.Chain.{
  max_depth, max_files, ChainError, Files, Built, Walk, Visited, done, finish, visit_parents, enter,
  open_file, guard, and_then, with_parent, visit, pop,
}

pub Result-cases {ℓ κ} :
    {E : Type κ} {A : Type ℓ} (r : Result E A) → ((e : E) × (r ≡ err e)) ⊎ ((a : A) × (r ≡ ok a))
Result-cases (err e) = inl (e, refl)
Result-cases (ok a) = inr (a, refl)

pub pop-concat_one {ℓ} : {A : Type ℓ} (xs : List A) (x : A) → pop (xs ++ x ∷ []) ≡ xs
pop-concat_one [] x = refl
pop-concat_one (y ∷ []) x = refl
pop-concat_one (y ∷ z ∷ xs) x = ap (λ ys. y ∷ ys) (pop-concat_one (z ∷ xs) x)

module _ {S L V C : Type 0} (files : Files S L V C) (load : S → Result ChainError (Built L)) where
  -- What holds of a source that `visit` goes on to read.
  pub record IsNew (s : S) (w : Walk S L) : Type 0 where
    pub no_cycle : contains (files.show s) w.stack ≡ false
    pub unseen : contains (files.show s) w.seen ≡ false
    pub shallow : length w.stack < max_depth
    pub room : length w.seen < max_files

  pub guard-none : (s : S) (w : Walk S L) → guard files load s w ≡ none → IsNew s w
  unfolding guard
  guard-none s w h = record {
    no_cycle = ground arith;
    unseen = ground arith;
    shallow = ground arith;
    room = ground arith;
  }

  guard-ok :
      (s : S) (w w' : Walk S L)
      → guard files load s w ≡ some (ok w')
      → (w' ≡ w) × (contains (files.show s) w.seen ≡ true)
  unfolding guard
  guard-ok s w w' h = (ground arith, ground arith)

  -- The walk with the file on the stack.
  abbrev pub pushed : S → Walk S L → Walk S L
  pushed s w = record w { stack = w.stack ++ files.show s ∷ [] }

  -- A visit that read the file: its layer, and the walk after its parents.
  pub record Reads (v : Walk S L → S → Visited S L) (s : S) (w w' : Walk S L) : Type 0 where
    pub new : IsNew s w
    pub built : Built L
    pub loaded : load s ≡ ok built
    pub after : Walk S L
    pub parents :
        visit_parents files load v s (files.parents built.layer) (pushed s w) ≡ some (ok after)
    pub result : w' ≡ done files load s built after

  finish-ok :
      (s : S) (b : Built L) (r : Visited S L) (w' : Walk S L)
      → finish files load s b r ≡ some (ok w')
      → (w : Walk S L) × (r ≡ some (ok w)) × (w' ≡ done files load s b w)
  finish-ok s b none w' h = ground arith
  finish-ok s b (some (err e)) w' h = ground arith
  finish-ok s b (some (ok w)) w' h = (w, refl, ground arith)

  open_file-ok :
      (v : Walk S L → S → Visited S L) (s : S) (w w' : Walk S L) (c : Result SignalError (Unit {0}))
      → IsNew s w
      → open_file files load v s w c ≡ some (ok w')
      → Reads v s w w'
  unfolding open_file enter
  open_file-ok v s w w' (err e) n h = ground arith
  open_file-ok v s w w' (ok _) n h = elim (Result-cases (load s)) [
    | inl (e, q) ↦ ground arith
    | inr (b, q) ↦
        let (after, p, r) = finish-ok s b _ w' (rw q at h) in
        record { new = n; built = b; loaded = q; after = after; parents = p; result = r }
  ]

  pub visit-ok :
      (fuel : ℕ) (s : S) (w w' : Walk S L)
      → visit files load (suc fuel) w s ≡ some (ok w')
      → ((w' ≡ w) × (contains (files.show s) w.seen ≡ true)) ⊎ Reads (visit files load fuel) s w w'
  unfolding visit
  visit-ok fuel s w w' h = elim (Option-cases (guard files load s w)) [
    | inl e ↦
        inr (open_file-ok (visit files load fuel) s w w' _ (guard-none s w e) (rw (e, visit) at h))
    | inr (r, e) ↦ inl (guard-ok s w w' (ground arith))
  ]

  pub and_then-ok :
      (r : Visited S L) (next : Walk S L → Visited S L) (w' : Walk S L)
      → and_then files load r next ≡ some (ok w')
      → (w : Walk S L) × (r ≡ some (ok w)) × (next w ≡ some (ok w'))
  and_then-ok none next w' h = ground arith
  and_then-ok (some (err e)) next w' h = ground arith
  and_then-ok (some (ok w)) next w' h = (w, refl, h)

  with_parent-ok :
      (r : Result SignalError S) (next : S → Visited S L) (w' : Walk S L)
      → with_parent files load r next ≡ some (ok w')
      → (p : S) × (r ≡ ok p) × (next p ≡ some (ok w'))
  with_parent-ok (err e) next w' h = ground arith
  with_parent-ok (ok p) next w' h = (p, refl, h)

  -- A loop over parents that went through: the first was joined and visited, then the others.
  pub visit_parents-ok :
      (v : Walk S L → S → Visited S L) (s : S) (r : String) (refs : List String) (w w' : Walk S L)
      → visit_parents files load v s (r ∷ refs) w ≡ some (ok w')
      → (p : S) × (w₁ : Walk S L) × (files.join s r ≡ ok p)
        × (v w p ≡ some (ok w₁))
        × (visit_parents files load v s refs w₁ ≡ some (ok w'))
  unfolding visit_parents
  visit_parents-ok v s r refs w w' h =
      let (p, q, h') = with_parent-ok (files.join s r) _ w' h in
      let (w₁, n, m) = and_then-ok (v w p) _ w' h' in (p, w₁, q, n, m)
