-- ===== src/Throttle/Spacing.antt =====
-- What `dedup` and `rate_limit` guarantee of the sends that go out (crates/core/src/throttle.rs).
use ops_signal.Prelude.{
  ℕ, ◌+◌, ◌<◌, ◌≤◌, String, false, some, List, [], ◌∷◌, ◌++◌, ◌≡◌, eq_iff, Bool-cases, inl, inr,
  arith, All,
}
use ops_signal.Window.{Window}
use ops_signal.Routing.{RateLimit}
use ops_signal.Throttle.{Row, millis, count_since}
use ops_signal.Throttle.Rows.{blocks, count_since-append_one}
use ops_signal.Throttle.History.{Rules, turns_down, InOrder, admitted, permitted}
use ops_signal.Throttle.Forgets.{admitted-eq-permitted}

-- The later send is no repeat of the earlier one.
abbrev pub Apart : (String → Rules) → Row → Row → Type 0
Apart rules earlier later =
    earlier.route ≡ later.route
    → earlier.key ≡ later.key
    → (w : Window) → (rules later.route).dedup ≡ some w
    → earlier.sent_at + millis w ≤ later.sent_at

-- So it is for any two sends of a list.
abbrev pub AllApart : (String → Rules) → List Row → Type 0
AllApart rules [] = Unit
AllApart rules (x ∷ xs) = All (Apart rules x) xs × AllApart rules xs

-- At each send, the sends of its route in the period that ends with it, it included, are at most as
-- many as its limit; `before` holds the sends before the list.
abbrev pub AllCapped : (String → Rules) → List Row → List Row → Type 0
AllCapped rules before [] = Unit
AllCapped rules before (x ∷ xs) =
    ((limit : RateLimit)
      → (rules x.route).rate ≡ some limit
      → count_since x.route x.sent_at (millis limit.per) (before ++ x ∷ []) ≤ limit.max)
    × AllCapped rules (before ++ x ∷ []) xs

-- A send is apart from each of a list.
abbrev FromAll : (String → Rules) → List Row → Row → Type 0
FromAll rules before later = All (λ earlier. Apart rules earlier later) before

FromAll-append :
    (rules : String → Rules) (xs : List Row) (x y : Row)
    → FromAll rules (xs ++ x ∷ []) y
    → FromAll rules xs y × Apart rules x y
FromAll-append rules [] x y h = (tt, h.0)
FromAll-append rules (z ∷ xs) x y h = let (a, b) = FromAll-append rules xs x y h.1 in ((h.0, a), b)

All-FromAll-append :
    (rules : String → Rules) (xs : List Row) (x : Row) (ys : List Row)
    → All (FromAll rules (xs ++ x ∷ [])) ys
    → All (FromAll rules xs) ys × All (Apart rules x) ys
All-FromAll-append rules xs x [] h = (tt, tt)
All-FromAll-append rules xs x (y ∷ ys) h =
    let (a, b) = FromAll-append rules xs x y h.0 in
    let (cs, ds) = All-FromAll-append rules xs x ys h.1 in ((a, cs), (b, ds))

not-blocks-Apart :
    (x : Row) (xs : List Row) (y : Row) (w : Window)
    → blocks y.route y.key y.sent_at (millis w) (x ∷ xs) ≡ false
    → x.route ≡ y.route
    → x.key ≡ y.key
    → x.sent_at + millis w ≤ y.sent_at
not-blocks-Apart x xs y w h r k = ground (arith, eq_iff x.route y.route, eq_iff x.key y.key)

blocks-tail :
    (x : Row) (xs : List Row) (y : Row) (w : Window)
    → blocks y.route y.key y.sent_at (millis w) (x ∷ xs) ≡ false
    → blocks y.route y.key y.sent_at (millis w) xs ≡ false
blocks-tail x xs y w h = ground arith

not-repeats-FromAll :
    (rules : String → Rules) (before : List Row) (y : Row)
    → ((w : Window)
        → (rules y.route).dedup ≡ some w
        → blocks y.route y.key y.sent_at (millis w) before ≡ false)
    → FromAll rules before y
not-repeats-FromAll rules [] y h = tt
not-repeats-FromAll rules (x ∷ xs) y h = (
  λ r k w e. not-blocks-Apart x xs y w (h w e) r k,
  not-repeats-FromAll rules xs y (λ w e. blocks-tail x xs y w (h w e)),
)

not-down-blocks :
    (rules : Rules) (before : List Row) (y : Row) (w : Window)
    → turns_down rules before y ≡ false
    → rules.dedup ≡ some w
    → blocks y.route y.key y.sent_at (millis w) before ≡ false
not-down-blocks rules before y w h e = ground arith

not-down-count :
    (rules : Rules) (before : List Row) (y : Row) (limit : RateLimit)
    → turns_down rules before y ≡ false
    → rules.rate ≡ some limit
    → count_since y.route y.sent_at (millis limit.per) before < limit.max
not-down-count rules before y limit h e = ground arith

count_since-one : (y : Row) (per : ℕ) → count_since y.route y.sent_at per (y ∷ []) ≤ 1
unfolding count_since
count_since-one y per = ground arith

module _ (rules : String → Rules) where
  permitted-FromAll :
      (before sends : List Row) → All (FromAll rules before) (permitted rules before sends)
  unfolding permitted
  permitted-FromAll before [] = tt
  permitted-FromAll before (x ∷ xs) = elim (Bool-cases (turns_down (rules x.route) before x)) [
    | inl down ↦ rw down (permitted-FromAll before xs)
    | inr up ↦ rw up (
      not-repeats-FromAll rules before x (λ w. not-down-blocks (rules x.route) before x w up),
      (All-FromAll-append rules before x _ (permitted-FromAll (before ++ x ∷ []) xs)).0,
    )
  ]

  permitted-AllApart : (before sends : List Row) → AllApart rules (permitted rules before sends)
  unfolding permitted
  permitted-AllApart before [] = tt
  permitted-AllApart before (x ∷ xs) = elim (Bool-cases (turns_down (rules x.route) before x)) [
    | inl down ↦ rw down (permitted-AllApart before xs)
    | inr up ↦ rw up (
      (All-FromAll-append rules before x _ (permitted-FromAll (before ++ x ∷ []) xs)).1,
      permitted-AllApart (before ++ x ∷ []) xs,
    )
  ]

  permitted-AllCapped :
      (before sends : List Row) → AllCapped rules before (permitted rules before sends)
  unfolding permitted
  permitted-AllCapped before [] = tt
  permitted-AllCapped before (x ∷ xs) = elim (Bool-cases (turns_down (rules x.route) before x)) [
    | inl down ↦ rw down (permitted-AllCapped before xs)
    | inr up ↦ rw up (
      λ limit e. omega (
        arith,
        not-down-count (rules x.route) before x limit up e,
        count_since-append_one x.route x.sent_at (millis limit.per) before x,
        count_since-one x (millis limit.per),
      ),
      permitted-AllCapped (before ++ x ∷ []) xs,
    )
  ]

  -- Of sends that come in order of time, two that the table lets through on one route with one key
  -- are at least the route's `dedup` window apart, however many others stand between them.
  pub admitted-AllApart :
      (sends : List Row) → InOrder 0 sends → AllApart rules (admitted rules [] sends)
  admitted-AllApart sends o = rw (admitted-eq-permitted rules sends o) (permitted-AllApart [] sends)

  -- Of sends that come in order of time, those that the table lets through on a route are never
  -- more than its `rate_limit` in any period of the limit's length that ends with one of them.
  pub admitted-AllCapped :
      (sends : List Row) → InOrder 0 sends → AllCapped rules [] (admitted rules [] sends)
  admitted-AllCapped sends o =
      rw (admitted-eq-permitted rules sends o) (permitted-AllCapped [] sends)
