-- ===== src/Chain/Closed.antt =====
-- What every file of a chain (crates/core/src/chain.rs) has if the roots have it and joining keeps
-- it.
use ops_signal.Prelude.{
  ℕ, zero, suc, String, some, List, [], ◌∷◌, ◌≡◌, sym, subst, inl, inr, All, All-append,
  ok-injective, some-injective, Result, ok, arith,
}
use ops_signal.Chain.{
  ChainError, Files, Built, Walk, Visited, done, visit_parents, visit, visit_roots, walk, new_walk,
  max_depth,
}
use ops_signal.Chain.Visits.{Reads, pushed, visit-ok, visit_parents-ok, and_then-ok}

module _ {S L V C : Type 0} (files : Files S L V C) (load : S → Result ChainError (Built L))
    (P : S → Type 0)
    (joined : (s : S) (r : String) (p : S) → P s → files.join s r ≡ ok p → P p) where
  abbrev pub AllOrder : Walk S L → Type 0
  AllOrder w = All (λ f. P f.source) w.order

  module _ (v : Walk S L → S → Visited S L)
      (keeps : (s : S) (w w' : Walk S L)
        → v w s ≡ some (ok w')
        → P s
        → AllOrder w
        → AllOrder w') where
    visit_parents-AllOrder :
        (s : S) (refs : List String) (w w' : Walk S L)
        → visit_parents files load v s refs w ≡ some (ok w')
        → P s
        → AllOrder w
        → AllOrder w'
    unfolding visit_parents
    visit_parents-AllOrder s [] w w' h p a = subst AllOrder (ok-injective (some-injective _ _ h)) a
    visit_parents-AllOrder s (r ∷ refs) w w' h p a =
        let (t, w₁, q, n, m) = visit_parents-ok files load v s r refs w w' h in
        visit_parents-AllOrder s refs w₁ w' m p (keeps t w w₁ n (joined s r t p q) a)

    done-AllOrder :
        (s : S) (w w' : Walk S L)
        → (x : Reads files load v s w w') → P s
        → AllOrder w
        → AllOrder (done files load s x.built x.after)
    unfolding done
    done-AllOrder s w w' x p a =
        All-append (λ f. P f.source) x.after.order _
          (visit_parents-AllOrder s (files.parents x.built.layer) (pushed files load s w) x.after
            x.parents p a)
          (p, tt)

  visit-AllOrder :
      (fuel : ℕ) (s : S) (w w' : Walk S L)
      → visit files load fuel w s ≡ some (ok w')
      → P s
      → AllOrder w
      → AllOrder w'
  unfolding visit
  visit-AllOrder zero s w w' h p a = ground arith
  visit-AllOrder (suc fuel) s w w' h p a = elim (visit-ok files load fuel s w w' h) [
    | inl (e, c) ↦ subst AllOrder (sym e) a
    | inr x ↦
        subst AllOrder (sym x.result)
          (done-AllOrder (visit files load fuel) (visit-AllOrder fuel) s w w' x p a)
  ]

  visit_roots-AllOrder :
      (fuel : ℕ) (roots : List S) (w w' : Walk S L)
      → visit_roots files load fuel roots w ≡ some (ok w')
      → All P roots
      → AllOrder w
      → AllOrder w'
  unfolding visit_roots
  visit_roots-AllOrder fuel [] w w' h p a = subst AllOrder (ok-injective (some-injective _ _ h)) a
  visit_roots-AllOrder fuel (root ∷ rest) w w' h p a =
      let (w₁, n, m) = and_then-ok files load (visit files load fuel w root) _ w' h in
      visit_roots-AllOrder fuel rest w₁ w' m p.1 (visit-AllOrder fuel root w w₁ n p.0 a)

  pub walk-AllOrder :
      (roots : List S) (w : Walk S L)
      → walk files load roots ≡ some (ok w)
      → All P roots
      → AllOrder w
  unfolding walk
  walk-AllOrder roots w h p = visit_roots-AllOrder (suc max_depth) roots new_walk w h p tt
