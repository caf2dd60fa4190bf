-- ===== src/Delivery/Weave.antt =====
-- Taking turns keeps the order of what only one list has (`join_all` in crates/core/src/lib.rs).
use ops_signal.Prelude.{
  ℕ, zero, suc, Bool, Option, none, some, List, [], ◌∷◌, ◌++◌, ◌≡◌, refl, keep, inl, inr, ◌⊎◌,
  arith, concat, append-nil, sym, ap, ◌∙◌,
}
use ops_signal.Delivery.Chain.{take_step, cons_some, weave}

-- At most one of the lists has an element that passes the test.
module _ {A : Type 0} (p : A → Bool) where
  abbrev pub AtMostOne : List (List A) → Type 0
  AtMostOne [] = Unit
  AtMostOne (xs ∷ rest) = ((keep p xs ≡ []) × AtMostOne rest) ⊎ (keep p (concat rest) ≡ [])

  pub keep-append : (xs ys : List A) → keep p (xs ++ ys) ≡ keep p xs ++ keep p ys
  keep-append [] ys = refl
  keep-append (x ∷ xs) ys = ground (arith, keep-append xs ys)

  -- Taking a step keeps the order of the elements that pass, and leaves them in one list at most.
  record Steps (x : Option A) (left chains : List (List A)) : Type 0 where
    order : keep p (cons_some x (concat left)) ≡ keep p (concat chains)
    one : AtMostOne left

  nil-of-append : (xs ys : List A) → xs ++ ys ≡ [] → ys ≡ []
  nil-of-append [] ys h = h
  nil-of-append (x ∷ xs) ys h = cc

  pub no_step : (left : List (List A)) → keep p (concat left) ≡ [] → AtMostOne left
  no_step [] h = tt
  no_step (xs ∷ left) h = inr (nil-of-append (keep p xs) _ (sym (keep-append xs (concat left)) ∙ h))

  step_after :
      (x : Option A) (xs rest : List A)
      → keep p xs ≡ []
      → keep p (cons_some x (xs ++ rest)) ≡ keep p (cons_some x rest)
  step_after none xs rest h = keep-append xs rest ∙ ap (λ l. l ++ keep p rest) h
  step_after (some x) xs rest h = ground (arith, keep-append xs rest)

  silent_step :
      (x : Option A) (xs rest : List A)
      → keep p (cons_some x rest) ≡ []
      → (keep p rest ≡ []) × (keep p (cons_some x (xs ++ rest)) ≡ keep p xs)
  silent_step none xs rest h =
      (h, keep-append xs rest ∙ ap (λ l. keep p xs ++ l) h ∙ append-nil (keep p xs))
  silent_step (some x) xs rest h = ground (arith, keep-append xs rest, append-nil (keep p xs))

  take_step-Steps :
      (i : ℕ) (chains : List (List A))
      → AtMostOne chains
      → Steps (take_step i chains).0 (take_step i chains).1 chains
  unfolding take_step
  take_step-Steps i [] h = record { order = refl; one = tt }
  take_step-Steps zero ([] ∷ rest) h = record { order = refl; one = h }
  take_step-Steps zero ((x ∷ xs) ∷ rest) (inl (none_here, one)) = record {
    order = refl;
    one = inl (ground arith, one);
  }
  take_step-Steps zero ((x ∷ xs) ∷ rest) (inr none_there) = record {
    order = refl;
    one = inr none_there;
  }
  take_step-Steps (suc i) (xs ∷ rest) (inl (none_here, one)) =
      let t = take_step-Steps i rest one in
      record {
        order =
            step_after (take_step i rest).0 xs _ none_here
            ∙ t.order
            ∙ sym (step_after none xs (concat rest) none_here);
        one = inl (none_here, t.one);
      }
  take_step-Steps (suc i) (xs ∷ rest) (inr none_there) =
      let t = take_step-Steps i rest (no_step rest none_there) in
      let (silent, same) =
        silent_step (take_step i rest).0 xs (concat (take_step i rest).1) (t.order ∙ none_there) in
      record {
        order = same ∙ sym (silent_step none xs (concat rest) none_there).1;
        one = inr silent;
      }

  keep-cons_some :
      (x : Option A) (xs ys : List A)
      → keep p xs ≡ keep p ys
      → keep p (cons_some x xs) ≡ keep p (cons_some x ys)
  keep-cons_some none xs ys h = h
  keep-cons_some (some x) xs ys h = ground arith

  cons_some-append : (x : Option A) (xs ys : List A) → cons_some x xs ++ ys ≡ cons_some x (xs ++ ys)
  cons_some-append none xs ys = refl
  cons_some-append (some x) xs ys = refl

  -- What a schedule runs and what it leaves hold the elements that pass in the order of the lists.
  pub keep-weave :
      (schedule : List ℕ) (chains : List (List A))
      → AtMostOne chains
      → keep p ((weave schedule chains).0 ++ concat (weave schedule chains).1)
        ≡ keep p (concat chains)
  unfolding weave
  keep-weave [] chains h = refl
  keep-weave (i ∷ schedule) chains h =
      let (x, chains') = take_step i chains in
      let t = take_step-Steps i chains h in
      let (xs, left) = weave schedule chains' in
      rw (cons_some-append x xs (concat left))
        (keep-cons_some x _ _ (keep-weave schedule chains' t.one))
      ∙ t.order
