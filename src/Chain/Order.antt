-- ===== src/Chain/Order.antt =====
-- The order of the files of a chain (`Walk::visit` of crates/core/src/chain.rs).
use ops_signal.Prelude.{
  ℕ, max, ◌-◌, zero, suc, ◌+◌, ◌≤◌, String, true, false, ◌==◌, some, List, [], ◌∷◌, ◌++◌, ◌≡◌, refl,
  inl, inr, length, map, contains, All, IsUnique, Result, ok, arith, sym, ap, ◌∙◌,
  contains-concat_one, IsUnique-concat_one, eq_iff, eq_refl, length-append, subst, map-append,
  append-nil, append_assoc, Bool-cases,
}
use ops_signal.Chain.{
  max_depth, max_files, ChainError, Files, Built, Loaded, Walk, Visited, done, visit_parents, visit,
  visit_roots, walk, new_walk, pop,
}
use ops_signal.Chain.Visits.{Reads, pushed, visit-ok, visit_parents-ok, and_then-ok, pop-concat_one}

module _ {S L V C : Type 0} (files : Files S L V C) (load : S → Result ChainError (Built L)) where
  abbrev pub keys : List (Loaded S L) → List String
  keys = map (λ f. files.show f.source)

  -- Each of the references of a source leads to a file that was loaded.
  abbrev pub AllFound : S → List String → List String → Type 0
  AllFound s refs seen =
      All (λ r. (p : S) × (files.join s r ≡ ok p) × (contains (files.show p) seen ≡ true)) refs

  -- A file is what its source gave, and its parents come before it.
  pub record IsPlaced (before : List String) (f : Loaded S L) : Type 0 where
    pub built : Built L
    pub loaded : load f.source ≡ ok built
    pub text : f.text ≡ built.text
    pub secrets : f.secrets ≡ built.secrets
    pub layer : f.layer ≡ built.layer
    pub parents : AllFound f.source (files.parents f.layer) before

  abbrev pub IsOrdered : List String → List (Loaded S L) → Type 0
  IsOrdered before [] = Unit
  IsOrdered before (f ∷ fs) = IsPlaced before f × IsOrdered (before ++ files.show f.source ∷ []) fs

  pub record IsWalk (w : Walk S L) : Type 0 where
    pub known : w.seen ≡ keys w.order
    pub unique : IsUnique w.seen
    pub ordered : IsOrdered [] w.order

  -- How many files can be done when the stack has a length: the ones on it come on top.
  abbrev pub most : ℕ → ℕ → ℕ
  most depth seen = max seen (max_files + 7 - depth)

  -- What a visit does to a walk.
  pub record Grows (w w' : Walk S L) : Type 0 where
    pub stack : w'.stack ≡ w.stack
    pub kept : (n : String) → contains n w.seen ≡ true → contains n w'.seen ≡ true
    pub apart : (n : String) → contains n w.stack ≡ true → contains n w'.seen ≡ contains n w.seen
    pub well : IsWalk w → IsWalk w'
    pub bounded : length w'.seen ≤ most (length w.stack) (length w.seen)

  Grows-refl : (w : Walk S L) → Grows w w
  Grows-refl w = record {
    stack = refl;
    kept = λ n h. h;
    apart = λ n h. refl;
    well = λ h. h;
    bounded = omega arith;
  }

  Grows-trans : (u v w : Walk S L) → Grows u v → Grows v w → Grows u w
  Grows-trans u v w g h = record {
    stack = h.stack ∙ g.stack;
    kept = λ n k. h.kept n (g.kept n k);
    apart = λ n k. h.apart n (ap (contains n) g.stack ∙ k) ∙ g.apart n k;
    well = λ k. h.well (g.well k);
    bounded = omega (arith, g.bounded, h.bounded, ap length g.stack);
  }

  -- The loop over the parents, from what a visit of one does.
  module _ (v : Walk S L → S → Visited S L)
      (grows : (s : S) (w w' : Walk S L)
        → v w s ≡ some (ok w')
        → Grows w w' × (contains (files.show s) w'.seen ≡ true)) where
    same : (w w' : Walk S L) → Path (Visited S L) (some (ok w)) (some (ok w')) → w ≡ w'
    same w w' h = ground arith

    visit_parents-Grows :
        (s : S) (refs : List String) (w w' : Walk S L)
        → visit_parents files load v s refs w ≡ some (ok w')
        → Grows w w' × AllFound s refs w'.seen
    unfolding visit_parents
    visit_parents-Grows s [] w w' h = (subst (Grows w) (same w w' h) (Grows-refl w), tt)
    visit_parents-Grows s (r ∷ refs) w w' h =
        let (p, w₁, q, n, m) = visit_parents-ok files load v s r refs w w' h in
        let (g, c) = grows p w w₁ n in
        let (k, found) = visit_parents-Grows s refs w₁ w' m in
        (Grows-trans w w₁ w' g k, ((p, q, k.kept (files.show p) c), found))

    IsOrdered-append :
        (before : List String) (fs : List (Loaded S L)) (f : Loaded S L)
        → IsOrdered before fs
        → IsPlaced (before ++ keys fs) f
        → IsOrdered before (fs ++ f ∷ [])
    IsOrdered-append before [] f o p = (subst (λ b. IsPlaced b f) (append-nil before) p, tt)
    IsOrdered-append before (x ∷ xs) f o p = (
      o.0,
      IsOrdered-append (before ++ files.show x.source ∷ []) xs f o.1 (
          subst (λ b. IsPlaced b f) (sym (append_assoc before (files.show x.source ∷ []) (keys xs)))
            p),
    )

    contains-new :
        (n key : String) (stack : List String)
        → contains key stack ≡ false
        → contains n stack ≡ true
        → (key == n) ≡ false
    contains-new n key stack h k = elim (Bool-cases (key == n)) [
      | inl e ↦ ground (arith, ap (λ m. contains m stack) ((eq_iff key n).0 e))
      | inr e ↦ e
    ]

    -- A file that was read, from what the visits of its parents do.
    done-Grows :
        (s : S) (w w' : Walk S L)
        → (x : Reads files load v s w w') → Grows w (done files load s x.built x.after)
    unfolding done
    done-Grows s w w' x =
        let key = files.show s in
        let (g, found) =
          visit_parents-Grows s (files.parents x.built.layer) (pushed files load s w) x.after
            x.parents in
        let own : contains key x.after.seen ≡ false =
          g.apart key (contains-concat_one key w.stack key ∙ ground (arith, eq_refl key))
          ∙ x.new.unseen in
        record {
          stack = ap pop g.stack ∙ pop-concat_one w.stack key;
          kept = λ n h. contains-concat_one n x.after.seen key ∙ ground (arith, g.kept n h);
          apart = λ n h.
              contains-concat_one n x.after.seen key
              ∙ rw (contains-new n key w.stack x.new.no_cycle h) (
                  ground
                    (arith, g.apart n (contains-concat_one n w.stack key ∙ ground (arith, h))));
          well = λ h.
              let k = g.well (record { known = h.known; unique = h.unique; ordered = h.ordered }) in
              record {
                known = ap (λ ks. ks ++ key ∷ []) k.known ∙ sym (map-append _ x.after.order _);
                unique = IsUnique-concat_one x.after.seen key own k.unique;
                ordered = IsOrdered-append [] x.after.order _ k.ordered (record {
                  built = x.built;
                  loaded = x.loaded;
                  text = refl;
                  secrets = refl;
                  layer = refl;
                  parents = subst (AllFound s (files.parents x.built.layer)) k.known found;
                });
              };
          bounded = omega (
            arith,
            g.bounded,
            x.new.shallow,
            x.new.room,
            length-append w.stack (key ∷ []),
            length-append x.after.seen (key ∷ []),
          );
        }

  contains-done :
      (s : S) (b : Built L) (w : Walk S L)
      → contains (files.show s) (done files load s b w).seen ≡ true
  unfolding done
  contains-done s b w =
      contains-concat_one (files.show s) w.seen (files.show s)
      ∙ ground (arith, eq_refl (files.show s))

  length-keys : (fs : List (Loaded S L)) → length (keys fs) ≡ length fs
  length-keys [] = refl
  length-keys (f ∷ fs) = ap suc (length-keys fs)

  pub visit-Grows :
      (fuel : ℕ) (s : S) (w w' : Walk S L)
      → visit files load fuel w s ≡ some (ok w')
      → Grows w w' × (contains (files.show s) w'.seen ≡ true)
  unfolding visit
  visit-Grows zero s w w' h = ground arith
  visit-Grows (suc fuel) s w w' h = elim (visit-ok files load fuel s w w' h) [
    | inl (e, c) ↦
        (subst (Grows w) (sym e) (Grows-refl w), ap (λ x. contains (files.show s) x.seen) e ∙ c)
    | inr x ↦
        let g = done-Grows (visit files load fuel) (visit-Grows fuel) s w w' x in
        (
          subst (Grows w) (sym x.result) g,
          ap (λ y. contains (files.show s) y.seen) x.result ∙ contains-done s x.built x.after,
        )
  ]

  visit_roots-Grows :
      (fuel : ℕ) (roots : List S) (w w' : Walk S L)
      → visit_roots files load fuel roots w ≡ some (ok w')
      → Grows w w' × All (λ s. contains (files.show s) w'.seen ≡ true) roots
  unfolding visit_roots
  visit_roots-Grows fuel [] w w' h = (subst (Grows w) (ground arith) (Grows-refl w), tt)
  visit_roots-Grows fuel (root ∷ rest) w w' h =
      let (w₁, n, m) = and_then-ok files load (visit files load fuel w root) _ w' h in
      let (g, c) = visit-Grows fuel root w w₁ n in
      let (k, found) = visit_roots-Grows fuel rest w₁ w' m in
      (Grows-trans w w₁ w' g k, (k.kept (files.show root) c, found))

  walk-Grows :
      (roots : List S) (w : Walk S L)
      → walk files load roots ≡ some (ok w)
      → Grows new_walk w × All (λ s. contains (files.show s) w.seen ≡ true) roots
  unfolding walk
  walk-Grows roots w h = visit_roots-Grows (suc max_depth) roots new_walk w h

  -- A walk that succeeds has every root, no file twice, and every file as it was loaded; each
  -- reference in a file's `extends` leads to a file that stands before it.
  pub walk-IsWalk :
      (roots : List S) (w : Walk S L)
      → walk files load roots ≡ some (ok w)
      → IsWalk w × All (λ s. contains (files.show s) (keys w.order) ≡ true) roots
  walk-IsWalk roots w h =
      let (g, found) = walk-Grows roots w h in
      let well = g.well (record { known = refl; unique = tt; ordered = tt }) in
      (well, subst (λ ks. All (λ s. contains (files.show s) ks ≡ true) roots) well.known found)

  -- A walk that succeeds has at most 71 files: the limit of 64 is tested when a file is entered, on
  -- the files that are done by then, so the at most 7 files below the last one's come on top.
  pub walk_bounded :
      (roots : List S) (w : Walk S L)
      → walk files load roots ≡ some (ok w)
      → length w.order ≤ max_files + 7
  walk_bounded roots w h =
      let g = (walk-Grows roots w h).0 in
      let well = g.well (record { known = refl; unique = tt; ordered = tt }) in
      omega (arith, g.bounded, ap length well.known, length-keys w.order)
