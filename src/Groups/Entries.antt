-- ===== src/Groups/Entries.antt =====
-- The map of open groups (crates/core/src/group.rs): counting its members, and what keeps it well
-- formed.
use ops_signal.Prelude.{
  ℕ, ◌+◌, ◌≤◌, ◌<◌, String, Bool, true, false, ◌||◌, none, some, List, [], ◌∷◌, ◌++◌, ◌≡◌, refl,
  ◌==◌, map, any, length, All, eq_iff, Bool-cases, inl, inr, arith, subst, sym, if◌then◌else◌,
}
use ops_signal.Groups.{
  max_group_size, Member, Closed, Open, Groups, entry, without, push_member, close,
}

module _ {M : Type 0} where
  -- How many of the members meet a test.
  abbrev pub tally : (Member M → Bool) → List (Member M) → ℕ
  tally p [] = 0
  tally p (m ∷ ms) = (if p m then 1 else 0) + tally p ms

  abbrev pub tally_open : (Member M → Bool) → List (Open M) → ℕ
  tally_open p [] = 0
  tally_open p (g ∷ gs) = tally p g.members + tally_open p gs

  abbrev pub tally_closed : (Member M → Bool) → List (Closed M) → ℕ
  tally_closed p [] = 0
  tally_closed p (c ∷ cs) = tally p c.members + tally_closed p cs

  pub tally-append :
      (p : Member M → Bool) (xs ys : List (Member M)) → tally p (xs ++ ys) ≡ tally p xs + tally p ys
  tally-append p [] ys = omega arith
  tally-append p (m ∷ ms) ys = omega (arith, tally-append p ms ys)

  abbrev pub has_entry : String → List (Open M) → Bool
  has_entry key = any (λ g. g.key == key)

  -- The map holds a key once.
  abbrev pub IsKeyed : List (Open M) → Type 0
  IsKeyed [] = Unit
  IsKeyed (g ∷ gs) = (has_entry g.key gs ≡ false) × IsKeyed gs

  -- An open group has members, and is not full.
  abbrev pub IsSized : Open M → Type 0
  IsSized g = (0 < length g.members) × (length g.members < max_group_size)

  pub record IsWell (gs : Groups M) : Type 0 where
    pub keyed : IsKeyed gs.entries
    pub sized : All IsSized gs.entries
    pub numbered : All (λ g. g.seq ≤ gs.next_seq) gs.entries

  -- What the list operations do, given the entry of the key.
  without_absent :
      (key : String) (gs : List (Open M)) → has_entry key gs ≡ false → without key gs ≡ gs
  without_absent key [] h = refl
  without_absent key (g ∷ gs) h = ground (arith, without_absent key gs)

  pub tally-without :
      (p : Member M → Bool) (key : String) (g : Open M) (gs : List (Open M))
      → IsKeyed gs
      → entry key gs ≡ some g
      → tally p g.members + tally_open p (without key gs) ≡ tally_open p gs
  tally-without p key g [] u e = ground arith
  tally-without p key g (x ∷ xs) u e = elim (Bool-cases (x.key == key)) [
    | inl k ↦ ground (arith, without_absent key xs, (eq_iff x.key key).0 k)
    | inr k ↦ ground (arith, tally-without p key g xs)
  ]

  pub tally-push_member :
      (p : Member M → Bool) (key : String) (m : Member M) (g : Open M) (gs : List (Open M))
      → entry key gs ≡ some g
      → tally_open p (push_member key m gs) ≡ tally p (m ∷ []) + tally_open p gs
  unfolding push_member
  tally-push_member p key m g [] e = ground arith
  tally-push_member p key m g (x ∷ xs) e = elim (Bool-cases (x.key == key)) [
    | inl k ↦ rw k (ground (arith, tally-append p x.members (m ∷ [])))
    | inr k ↦ rw k (ground (arith, tally-push_member p key m g xs))
  ]

  pub tally_open-append_one :
      (p : Member M → Bool) (gs : List (Open M)) (g : Open M)
      → tally_open p (gs ++ g ∷ []) ≡ tally_open p gs + tally p g.members
  tally_open-append_one p [] g = omega arith
  tally_open-append_one p (x ∷ xs) g = omega (arith, tally_open-append_one p xs g)

  pub tally_closed-map :
      (p : Member M → Bool) (gs : List (Open M)) → tally_closed p (map close gs) ≡ tally_open p gs
  tally_closed-map p [] = refl
  tally_closed-map p (g ∷ gs) = omega (arith, tally_closed-map p gs)

  -- The same for the invariant.
  has_entry-without :
      (key k : String) (gs : List (Open M))
      → has_entry k gs ≡ false
      → has_entry k (without key gs) ≡ false
  has_entry-without key k [] h = refl
  has_entry-without key k (g ∷ gs) h = ground (arith, has_entry-without key k gs)

  pub IsKeyed-without : (key : String) (gs : List (Open M)) → IsKeyed gs → IsKeyed (without key gs)
  IsKeyed-without key [] u = tt
  IsKeyed-without key (g ∷ gs) u =
      ground (arith, IsKeyed-without key gs, has_entry-without key g.key gs)

  has_entry-push_member :
      (key k : String) (m : Member M) (gs : List (Open M))
      → has_entry k (push_member key m gs) ≡ has_entry k gs
  unfolding push_member
  has_entry-push_member key k m [] = refl
  has_entry-push_member key k m (g ∷ gs) = ground (arith, has_entry-push_member key k m gs)

  pub IsKeyed-push_member :
      (key : String) (m : Member M) (gs : List (Open M))
      → IsKeyed gs
      → IsKeyed (push_member key m gs)
  unfolding push_member
  IsKeyed-push_member key m [] u = tt
  IsKeyed-push_member key m (g ∷ gs) u =
      ground (arith, IsKeyed-push_member key m gs, has_entry-push_member key g.key m gs)

  has_entry-append_one :
      (k : String) (gs : List (Open M)) (g : Open M)
      → has_entry k (gs ++ g ∷ []) ≡ (has_entry k gs || g.key == k)
  has_entry-append_one k [] g = ground arith
  has_entry-append_one k (x ∷ xs) g = ground (arith, has_entry-append_one k xs g)

  pub IsKeyed-append_one :
      (gs : List (Open M)) (g : Open M)
      → has_entry g.key gs ≡ false
      → IsKeyed gs
      → IsKeyed (gs ++ g ∷ [])
  IsKeyed-append_one [] g h u = (refl, tt)
  IsKeyed-append_one (x ∷ xs) g h u = ground (
    arith,
    IsKeyed-append_one xs g,
    has_entry-append_one x.key xs g,
    eq_iff x.key g.key,
    eq_iff g.key x.key,
  )

  pub has_entry-entry :
      (key : String) (gs : List (Open M)) → entry key gs ≡ none → has_entry key gs ≡ false
  has_entry-entry key [] h = refl
  has_entry-entry key (g ∷ gs) h = ground (arith, has_entry-entry key gs)

  entry_here :
      (key : String) (g x : Open M) (xs : List (Open M))
      → (x.key == key) ≡ true
      → entry key (x ∷ xs) ≡ some g
      → x ≡ g
  entry_here key g x xs k e = ground arith

  entry_there :
      (key : String) (g x : Open M) (xs : List (Open M))
      → (x.key == key) ≡ false
      → entry key (x ∷ xs) ≡ some g
      → entry key xs ≡ some g
  entry_there key g x xs k e = ground arith

  -- What holds of every entry stays so.
  module _ (P : Open M → Type 0) where
    pub All-without : (key : String) (gs : List (Open M)) → All P gs → All P (without key gs)
    All-without key [] h = tt
    All-without key (g ∷ gs) h = elim (Bool-cases (g.key == key)) [
      | inl e ↦ rw e (All-without key gs h.1)
      | inr e ↦ rw e (h.0, All-without key gs h.1)
    ]

    pub All-entry :
        (key : String) (g : Open M) (gs : List (Open M)) → entry key gs ≡ some g → All P gs → P g
    All-entry key g [] e h = ground arith
    All-entry key g (x ∷ xs) e h = elim (Bool-cases (x.key == key)) [
      | inl k ↦ subst P (entry_here key g x xs k e) h.0
      | inr k ↦ All-entry key g xs (entry_there key g x xs k e) h.1
    ]

    pub All-push_member :
        (key : String) (m : Member M) (g : Open M) (gs : List (Open M))
        → entry key gs ≡ some g
        → P (record g { members = g.members ++ m ∷ [] })
        → All P gs
        → All P (push_member key m gs)
    unfolding push_member
    All-push_member key m g [] e n h = tt
    All-push_member key m g (x ∷ xs) e n h = elim (Bool-cases (x.key == key)) [
      | inl k ↦ rw k (
        subst (λ y. P (record y { members = y.members ++ m ∷ [] }))
            (sym (entry_here key g x xs k e)) n,
        h.1,
      )
      | inr k ↦ rw k (h.0, All-push_member key m g xs (entry_there key g x xs k e) n h.1)
    ]

  pub All-mono :
      (P Q : Open M → Type 0)
      → ((g : Open M) → P g → Q g)
      → (gs : List (Open M)) → All P gs
      → All Q gs
  All-mono P Q f [] h = tt
  All-mono P Q f (g ∷ gs) h = (f g h.0, All-mono P Q f gs h.1)

  pub length-close : (gs : List (Open M)) → length (map close gs) ≡ length gs
  length-close [] = refl
  length-close (g ∷ gs) = omega (arith, length-close gs)

  pub bounded-All :
      (gs : List (Open M))
      → All IsSized gs
      → All (λ c. (0 < length c.members) × (length c.members ≤ max_group_size)) (map close gs)
  bounded-All [] h = tt
  bounded-All (g ∷ gs) h = ((h.0.0, omega (arith, h.0.1)), bounded-All gs h.1)
