-- ===== src/Chain/Ends.antt =====
-- A walk ends (`walk` of crates/core/src/chain.rs): the depth is limited, so it needs no more fuel
-- than it is given, whatever the files extend.
use ops_signal.Prelude.{
  ℕ, zero, suc, ◌+◌, ◌≤◌, ◌<◌, String, none, some, List, [], ◌∷◌, ◌≡◌, refl, inl, inr, length,
  Result, ok, err, Option-cases, arith, ap, ◌∙◌, length-append,
}
use ops_signal.Signal.{SignalError}
use ops_signal.Chain.{
  max_depth, ChainError, Files, Built, Walk, Visited, finish, and_then, with_parent, visit_parents,
  enter, open_file, guard, visit, visit_roots, walk, new_walk,
}
use ops_signal.Chain.Visits.{guard-none, pushed}
use ops_signal.Chain.Order.{visit-Grows}

module _ {S L V C : Type 0} (files : Files S L V C) (load : S → Result ChainError (Built L)) where
  -- There was fuel enough.
  abbrev pub Returns : Visited S L → Type 0
  Returns r = (x : Result ChainError (Walk S L)) × (r ≡ some x)

  Returns-finish :
      (s : S) (b : Built L) (r : Visited S L) → Returns r → Returns (finish files load s b r)
  Returns-finish s b none (x, e) = ground arith
  Returns-finish s b (some (err e)) h = (err e, refl)
  Returns-finish s b (some (ok w)) h = (_, refl)

  Returns-and_then :
      (r : Visited S L) (next : Walk S L → Visited S L)
      → Returns r
      → ((w : Walk S L) → r ≡ some (ok w) → Returns (next w))
      → Returns (and_then files load r next)
  Returns-and_then none next (x, e) k = ground arith
  Returns-and_then (some (err e)) next h k = (err e, refl)
  Returns-and_then (some (ok w)) next h k = k w refl

  Returns-with_parent :
      (r : Result SignalError S) (next : S → Visited S L)
      → ((p : S) → Returns (next p))
      → Returns (with_parent files load r next)
  Returns-with_parent (err e) next k = (err (record { err = e; fatal = _ }), refl)
  Returns-with_parent (ok p) next k = k p

  -- The visits from a depth on return, and leave the stack as it was.
  module _ (depth : ℕ) (v : Walk S L → S → Visited S L)
      (returns : (w : Walk S L) (s : S) → length w.stack ≡ depth → Returns (v w s))
      (stack : (w w' : Walk S L) (s : S) → v w s ≡ some (ok w') → w'.stack ≡ w.stack) where
    Returns-visit_parents :
        (s : S) (refs : List String) (w : Walk S L)
        → length w.stack ≡ depth
        → Returns (visit_parents files load v s refs w)
    unfolding visit_parents
    Returns-visit_parents s [] w h = (ok w, refl)
    Returns-visit_parents s (r ∷ refs) w h = Returns-with_parent (files.join s r) _ (λ p.
        Returns-and_then (v w p) _ (returns w p h)
          (λ w' e. Returns-visit_parents s refs w' (ap length (stack w w' p e) ∙ h)))

    Returns-enter :
        (s : S) (w : Walk S L) (b : Result ChainError (Built L))
        → suc (length w.stack) ≡ depth
        → Returns (enter files load v s w b)
    unfolding enter
    Returns-enter s w (err e) h = (err e, refl)
    Returns-enter s w (ok b) h = Returns-finish s b _ (
        Returns-visit_parents s (files.parents b.layer) (pushed files load s w)
          (omega (arith, length-append w.stack (files.show s ∷ []))))

    Returns-open_file :
        (s : S) (w : Walk S L) (c : Result SignalError (Unit {0}))
        → suc (length w.stack) ≡ depth
        → Returns (open_file files load v s w c)
    unfolding open_file
    Returns-open_file s w (err e) h = (_, refl)
    Returns-open_file s w (ok _) h = Returns-enter s w (load s) h

  Returns-visit :
      (fuel : ℕ) (w : Walk S L) (s : S)
      → max_depth < length w.stack + fuel
      → length w.stack ≤ max_depth
      → Returns (visit files load fuel w s)
  unfolding visit
  Returns-visit zero w s h k = ground arith
  Returns-visit (suc fuel) w s h k = elim (Option-cases (guard files load s w)) [
    | inr (r, e) ↦ (r, rw (e, visit) refl)
    | inl e ↦
        let n = guard-none files load s w e in
        let (x, q) =
          Returns-open_file (suc (length w.stack)) (visit files load fuel)
            (λ w' s' d.
              Returns-visit fuel w' s' (omega (arith, d, h)) (omega (arith, d, n.shallow)))
            (λ w' w'' s' d. (visit-Grows files load fuel s' w' w'' d).0.stack) s w
            (files.check_supported s) refl in
        (x, rw (e, visit) q)
  ]

  Returns-visit_roots :
      (roots : List S) (w : Walk S L)
      → w.stack ≡ []
      → Returns (visit_roots files load (suc max_depth) roots w)
  unfolding visit_roots
  Returns-visit_roots [] w h = (ok w, refl)
  Returns-visit_roots (root ∷ rest) w h =
      Returns-and_then (visit files load (suc max_depth) w root) _
        (Returns-visit (suc max_depth) w root (omega (arith, ap length h))
          (omega (arith, ap length h)))
        (λ w' e.
          Returns-visit_roots rest w'
            ((visit-Grows files load (suc max_depth) root w w' e).0.stack ∙ h))

  -- A walk never lacks fuel: it ends with the files or with an error, whatever the files extend,
  -- cycles and endless chains included.
  pub Returns-walk : (roots : List S) → Returns (walk files load roots)
  unfolding walk
  Returns-walk roots = Returns-visit_roots roots new_walk refl
