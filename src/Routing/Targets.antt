-- ===== src/Routing/Targets.antt =====
-- Lists of targets, and what `targets[i].push(name)` does to them (crates/core/src/routing.rs).
use ops_signal.Prelude.{
  ℕ, zero, suc, ◌<◌, String, true, false, not, ◌||◌, List, [], ◌∷◌, ◌++◌, ◌≡◌, refl, ◌==◌, eq_iff,
  null, length, contains, concat, all, IsUnique, contains-append, contains-concat_one, arith,
  append_assoc, sym, ap, ◌∙◌,
}
use ops_signal.Routing.Plan.{push_at}

IsUnique-insert :
    (x : String) (t r : List String)
    → contains x (t ++ r) ≡ false
    → IsUnique (t ++ r)
    → IsUnique ((t ++ x ∷ []) ++ r)
IsUnique-insert x [] r c u = (c, u)
IsUnique-insert x (y ∷ t) r c u = ground (
  arith,
  IsUnique-insert x t r,
  contains-append y (t ++ x ∷ []) r,
  contains-append y t r,
  contains-concat_one y t x,
  eq_iff x y,
  eq_iff y x,
)

IsUnique-replace :
    (x : String) (t r r' : List String)
    → ((n : String) → contains n r' ≡ (contains n r || x == n))
    → contains x (t ++ r) ≡ false
    → IsUnique (t ++ r)
    → IsUnique r'
    → IsUnique (t ++ r')
IsUnique-replace x [] r r' more c u u' = u'
IsUnique-replace x (y ∷ t) r r' more c u u' = ground (
  arith,
  IsUnique-replace x t r r' more,
  contains-append y t r,
  contains-append y t r',
  more y,
  eq_iff x y,
  eq_iff y x,
)

pub contains-push_at :
    (n x : String) (ts : List (List String)) (i : ℕ)
    → i < length ts
    → contains n (concat (push_at ts i x)) ≡ (contains n (concat ts) || x == n)
unfolding push_at
contains-push_at n x [] i h = absurd (omega arith)
contains-push_at n x (t ∷ ts) zero h = ground (
  arith,
  contains-append n (t ++ x ∷ []) (concat ts),
  contains-append n t (concat ts),
  contains-concat_one n t x,
)
contains-push_at n x (t ∷ ts) (suc i) h = ground (
  arith,
  contains-append n t (concat ts),
  contains-append n t (concat (push_at ts i x)),
  contains-push_at n x ts i,
)

IsUnique-drop : (t r : List String) → IsUnique (t ++ r) → IsUnique r
IsUnique-drop [] r u = u
IsUnique-drop (x ∷ t) r u = IsUnique-drop t r u.1

pub IsUnique-push_at :
    (x : String) (ts : List (List String)) (i : ℕ)
    → i < length ts
    → contains x (concat ts) ≡ false
    → IsUnique (concat ts)
    → IsUnique (concat (push_at ts i x))
unfolding push_at
IsUnique-push_at x [] i h c u = absurd (omega arith)
IsUnique-push_at x (t ∷ ts) zero h c u = IsUnique-insert x t (concat ts) c u
IsUnique-push_at x (t ∷ ts) (suc i) h c u =
    IsUnique-replace x t (concat ts) (concat (push_at ts i x))
      (λ n. contains-push_at n x ts i (omega arith)) c u
      (IsUnique-push_at x ts i (omega arith) (ground (arith, contains-append x t (concat ts)))
        (IsUnique-drop t (concat ts) u))

-- Every target has a provider.
abbrev pub AllFilled : List (List String) → Type 0
AllFilled ts = all (λ t. not (null t)) ts ≡ true

null-append_one : (t : List String) (x : String) → null (t ++ x ∷ []) ≡ false
null-append_one [] x = refl
null-append_one (y ∷ t) x = refl

pub AllFilled-push_at :
    (x : String) (ts : List (List String)) (i : ℕ) → AllFilled ts → AllFilled (push_at ts i x)
unfolding push_at
AllFilled-push_at x [] i h = h
AllFilled-push_at x (t ∷ ts) zero h = ground (arith, null-append_one t x)
AllFilled-push_at x (t ∷ ts) (suc i) h = ground (arith, AllFilled-push_at x ts i)

pub AllFilled-concat_one :
    (x : String) (ts : List (List String)) → AllFilled ts → AllFilled (ts ++ (x ∷ []) ∷ [])
AllFilled-concat_one x [] h = refl
AllFilled-concat_one x (t ∷ ts) h = ground (arith, AllFilled-concat_one x ts)

pub length-push_at :
    (x : String) (ts : List (List String)) (i : ℕ) → length (push_at ts i x) ≡ length ts
unfolding push_at
length-push_at x [] i = refl
length-push_at x (t ∷ ts) zero = refl
length-push_at x (t ∷ ts) (suc i) = ap suc (length-push_at x ts i)

pub concat-concat_one :
    (ts : List (List String)) (x : String) → concat (ts ++ (x ∷ []) ∷ []) ≡ concat ts ++ x ∷ []
concat-concat_one [] x = refl
concat-concat_one (t ∷ ts) x =
    ap (λ r. t ++ r) (concat-concat_one ts x) ∙ sym (append_assoc t (concat ts) (x ∷ []))
