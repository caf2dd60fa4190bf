-- ===== src/Prelude/Splits.antt =====
-- Searching and splitting texts, as `str` does; a character is given by its code.
use Prim.Native.Nat.{ℕ}
use Prim.Native.Char.{Char, code}
use Prim.Native.String.{String}
use mathlib.Core.Path.{◌≡◌, refl, sym, ap, ap₂}
use mathlib.Core.Logic.{inl, inr}
use mathlib.Core.Bool.{Bool, true, false, ◌||◌}
use mathlib.Core.Option.{Option, none, some, some-injective}
use mathlib.Core.List.{List, [], ◌∷◌}
use native.Mathlib.Omega.{arith}
use text.Mathlib.TextEquality.{Char-path}
use ops_signal.Prelude.Lists.{All}
use ops_signal.Prelude.Texts.{append}
use ops_signal.Prelude.Tests.{eqb, if◌then◌else◌, Bool-cases, or-eq-false}

-- `str::strip_prefix`.
unfoldable pub strip_prefix : String → String → Option String
strip_prefix String.[] s = some s
strip_prefix (String.◌∷◌ c p) String.[] = none
strip_prefix (String.◌∷◌ c p) (String.◌∷◌ d s) =
    let rest = strip_prefix p s in if eqb (code c) (code d) then rest else none

pub strip_prefix-eq : (p s r : String) → strip_prefix p s ≡ some r → s ≡ append p r
unfolding strip_prefix
strip_prefix-eq String.[] s r h = ground arith
strip_prefix-eq (String.◌∷◌ c p) String.[] r h = ground arith
strip_prefix-eq (String.◌∷◌ c p) (String.◌∷◌ d s) r h = elim (Bool-cases (eqb (code c) (code d))) [
  | inr e ↦ ground (arith, e)
  | inl e ↦ ap₂ String.◌∷◌ (Char-path d c (ground (arith, e))) (strip_prefix-eq p s r (rw e at h))
]

-- `str::starts_with`.
unfoldable pub has_prefix : String → String → Bool
unfolding strip_prefix
has_prefix s p = elim (strip_prefix p s) [ none ↦ false | some _ ↦ true ]

-- `str::contains` on a text that is not empty.
unfoldable pub contains_text : String → String → Bool
unfolding has_prefix
contains_text p String.[] = false
contains_text p (String.◌∷◌ c s) = has_prefix (String.◌∷◌ c s) p || contains_text p s

-- `str::contains` on a character, by its code.
unfoldable pub has_char : ℕ → String → Bool
has_char n String.[] = false
has_char n (String.◌∷◌ c s) = eqb (code c) n || has_char n s

-- `str::split_once` at a character.
cons_left : Char → Option (String × String) → Option (String × String)
cons_left c none = none
cons_left c (some (a, b)) = some (String.◌∷◌ c a, b)

unfoldable pub split_once : ℕ → String → Option (String × String)
unfolding cons_left
split_once n String.[] = none
split_once n (String.◌∷◌ c s) =
    let rest = split_once n s in if eqb (code c) n then some ("", s) else cons_left c rest

-- `str::split` at a character.
cons_first : Char → List String → List String
cons_first c [] = String.◌∷◌ c "" ∷ []
cons_first c (t ∷ ts) = String.◌∷◌ c t ∷ ts

unfoldable pub split_on : ℕ → String → List String
unfolding cons_first
split_on n String.[] = "" ∷ []
split_on n (String.◌∷◌ c s) =
    let rest = split_on n s in if eqb (code c) n then "" ∷ rest else cons_first c rest

pub split_on-nonempty :
    (n : ℕ) (s : String) → (t : String) × (ts : List String) × (split_on n s ≡ t ∷ ts)
unfolding split_on
split_on-nonempty n String.[] = ("", [], refl)
split_on-nonempty n (String.◌∷◌ c s) =
    let (t, ts, e) = split_on-nonempty n s in
    elim (Bool-cases (eqb (code c) n)) [
      | inl h ↦ ("", split_on n s, rw (h, split_on) refl)
      | inr h ↦ (String.◌∷◌ c t, ts, rw (h, e, split_on) refl)
    ]

-- `str::rsplit_once` at a character.
unfoldable pub rsplit_once : ℕ → String → Option (String × String)
unfolding cons_left
rsplit_once n String.[] = none
rsplit_once n (String.◌∷◌ c s) = elim (rsplit_once n s) [
  | some p ↦ cons_left c (some p)
  | none ↦ if eqb (code c) n then some ("", s) else none
]

abbrev pub joined_at : Char → String → String → String
joined_at c a b = append a (String.◌∷◌ c b)

pub split_once-joined_at :
    (c : Char) (a b : String)
    → has_char (code c) a ≡ false
    → split_once (code c) (joined_at c a b) ≡ some (a, b)
unfolding split_once has_char
split_once-joined_at c String.[] b h = ground arith
split_once-joined_at c (String.◌∷◌ d s) b h =
    let (x, y) = or-eq-false (eqb (code d) (code c)) (has_char (code c) s) h in
    rw (x, split_once-joined_at c s b y) refl

pub split_on_single : (n : ℕ) (a : String) → has_char n a ≡ false → split_on n a ≡ a ∷ []
unfolding split_on has_char
split_on_single n String.[] h = refl
split_on_single n (String.◌∷◌ d s) h =
    let (x, y) = or-eq-false (eqb (code d) n) (has_char n s) h in rw (x, split_on_single n s y) refl

pub split_on-joined_at :
    (c : Char) (a b : String)
    → has_char (code c) a ≡ false
    → split_on (code c) (joined_at c a b) ≡ a ∷ split_on (code c) b
unfolding split_on has_char
split_on-joined_at c String.[] b h = ground arith
split_on-joined_at c (String.◌∷◌ d s) b h =
    let (x, y) = or-eq-false (eqb (code d) (code c)) (has_char (code c) s) h in
    rw (x, split_on-joined_at c s b y) refl

pub split_once-none : (n : ℕ) (a : String) → has_char n a ≡ false → split_once n a ≡ none
unfolding split_once has_char
split_once-none n String.[] h = refl
split_once-none n (String.◌∷◌ d s) h =
    let (x, y) = or-eq-false (eqb (code d) n) (has_char n s) h in rw (x, split_once-none n s y) refl

pub has_char-append :
    (n : ℕ) (a b : String) → has_char n (append a b) ≡ (has_char n a || has_char n b)
unfolding has_char
has_char-append n String.[] b = refl
has_char-append n (String.◌∷◌ c a) b = ground (arith, has_char-append n a b)

-- What the pieces of a text lack.
pub some_pair {ℓ κ} :
    {A : Type ℓ} {B : Type κ} {a c : A} {b d : B}
    → ◌≡◌ {A = Option (A × B)} (some (a, b)) (some (c, d))
    → (a ≡ c) × (b ≡ d)
some_pair h = (ap (λ p. p.0) (some-injective _ _ h), ap (λ p. p.1) (some-injective _ _ h))

abbrev EndsWith : Char → String × String → Option (String × String) → Type 0
EndsWith c p o = (a : String) × (o ≡ some (a, p.1)) × (p.0 ≡ String.◌∷◌ c a)

cons_left-inv :
    (c : Char) (p : String × String) (o : Option (String × String))
    → cons_left c o ≡ some p
    → EndsWith c p o
unfolding cons_left
cons_left-inv c p none h = ground arith
cons_left-inv c p (some (a, b)) h = (a, ap (λ t. some (a, t)) (some_pair h).1, sym (some_pair h).0)

pub split_once-lacks :
    (n : ℕ) (s a b : String) → split_once n s ≡ some (a, b) → has_char n a ≡ false
unfolding split_once has_char
split_once-lacks n String.[] a b h = ground arith
split_once-lacks n (String.◌∷◌ c s) a b h = elim (Bool-cases (eqb (code c) n)) [
  | inl e ↦ rw (sym (some_pair (rw e at h)).0) refl
  | inr e ↦
      let (t, k, j) = cons_left-inv c (a, b) (split_once n s) (rw e at h) in
      rw (j, e) (split_once-lacks n s t b k)
]

pub split_once-lacks_other :
    (n m : ℕ) (s a b : String)
    → split_once n s ≡ some (a, b)
    → has_char m s ≡ false
    → (has_char m a ≡ false) × (has_char m b ≡ false)
unfolding split_once has_char
split_once-lacks_other n m String.[] a b h k = ground arith
split_once-lacks_other n m (String.◌∷◌ c s) a b h k =
    let (x, y) = or-eq-false (eqb (code c) m) (has_char m s) k in
    elim (Bool-cases (eqb (code c) n)) [
      | inl e ↦ (rw (sym (some_pair (rw e at h)).0) refl, rw (sym (some_pair (rw e at h)).1) y)
      | inr e ↦
          let (t, l, j) = cons_left-inv c (a, b) (split_once n s) (rw e at h) in
          let (u, v) = split_once-lacks_other n m s t b l y in (rw (j, x) u, v)
    ]

cons_left-none : (c : Char) (o : Option (String × String)) → cons_left c o ≡ none → o ≡ none
unfolding cons_left
cons_left-none c none h = refl
cons_left-none c (some p) h = ground arith

pub split_once-none_lacks : (n : ℕ) (s : String) → split_once n s ≡ none → has_char n s ≡ false
unfolding split_once has_char
split_once-none_lacks n String.[] h = refl
split_once-none_lacks n (String.◌∷◌ c s) h = elim (Bool-cases (eqb (code c) n)) [
  | inl e ↦ ground (arith, e)
  | inr e ↦ rw e (split_once-none_lacks n s (cons_left-none c (split_once n s) (rw e at h)))
]

cons_first-lacks :
    (m : ℕ) (c : Char) (ts : List String)
    → eqb (code c) m ≡ false
    → All (λ t. has_char m t ≡ false) ts
    → All (λ t. has_char m t ≡ false) (cons_first c ts)
unfolding has_char cons_first
cons_first-lacks m c [] e h = (rw e refl, tt)
cons_first-lacks m c (t ∷ ts) e h = (rw e h.0, h.1)

pub split_on-lacks : (n : ℕ) (s : String) → All (λ t. has_char n t ≡ false) (split_on n s)
unfolding split_on has_char
split_on-lacks n String.[] = (refl, tt)
split_on-lacks n (String.◌∷◌ c s) = elim (Bool-cases (eqb (code c) n)) [
  | inl e ↦ rw e (refl, split_on-lacks n s)
  | inr e ↦ rw e (cons_first-lacks n c (split_on n s) e (split_on-lacks n s))
]

pub split_on-lacks_other :
    (n m : ℕ) (s : String) → has_char m s ≡ false → All (λ t. has_char m t ≡ false) (split_on n s)
unfolding split_on has_char
split_on-lacks_other n m String.[] h = (refl, tt)
split_on-lacks_other n m (String.◌∷◌ c s) h =
    let (x, y) = or-eq-false (eqb (code c) m) (has_char m s) h in
    elim (Bool-cases (eqb (code c) n)) [
      | inl e ↦ rw e (refl, split_on-lacks_other n m s y)
      | inr e ↦ rw e (cons_first-lacks m c (split_on n s) x (split_on-lacks_other n m s y))
    ]
