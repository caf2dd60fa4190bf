-- ===== src/Groups/Times.antt =====
-- The first and the last time of a digest's members (`digest` of crates/core/src/group.rs).
use ops_signal.Prelude.{
  ℕ, ◌≤◌, min, max, List, [], ◌∷◌, ◌≡◌, refl, ◌∙◌, inl, inr, ◌⊎◌, arith, All, Bool-cases, leb,
}
use ops_signal.Groups.{Member}
use ops_signal.Groups.Digest.{first_at, last_at}

min-cases : (a b : ℕ) → (min a b ≡ a) ⊎ (min a b ≡ b)
min-cases a b = elim (Bool-cases (leb a b)) [
  | inl e ↦ inl (ground (arith, e))
  | inr e ↦ inr (ground (arith, e))
]

max-cases : (a b : ℕ) → (max a b ≡ a) ⊎ (max a b ≡ b)
max-cases a b = elim (Bool-cases (leb a b)) [
  | inl e ↦ inr (ground (arith, e))
  | inr e ↦ inl (ground (arith, e))
]

module _ {M : Type 0} where
  -- The time of one of the members.
  abbrev pub IsTime : ℕ → List (Member M) → Type 0
  IsTime t [] = ⊥
  IsTime t (m ∷ ms) = (t ≡ m.signal.timestamp) ⊎ IsTime t ms

  -- The time of the first and of the last of the members.
  abbrev pub IsFirst : ℕ → List (Member M) → Type 0
  IsFirst t ms = All (λ m. t ≤ m.signal.timestamp) ms × IsTime t ms

  abbrev pub IsLast : ℕ → List (Member M) → Type 0
  IsLast t ms = All (λ m. m.signal.timestamp ≤ t) ms × IsTime t ms

  pub first_at-bounds :
      (t : ℕ) (ms : List (Member M))
      → (first_at t ms ≤ t)
        × All (λ m. first_at t ms ≤ m.signal.timestamp) ms
        × ((first_at t ms ≡ t) ⊎ IsTime (first_at t ms) ms)
  unfolding first_at
  first_at-bounds t [] = (omega arith, tt, inl refl)
  first_at-bounds t (m ∷ ms) =
      let (a, b, c) = first_at-bounds (min t m.signal.timestamp) ms in
      (
        omega (arith, a),
        (omega (arith, a), b),
        elim c [
          | inr h ↦ inr (inr h)
          | inl e ↦ elim (min-cases t m.signal.timestamp) [
            | inl k ↦ inl (e ∙ k)
            | inr k ↦ inr (inl (e ∙ k))
          ]
        ],
      )

  pub last_at-bounds :
      (t : ℕ) (ms : List (Member M))
      → (t ≤ last_at t ms)
        × All (λ m. m.signal.timestamp ≤ last_at t ms) ms
        × ((last_at t ms ≡ t) ⊎ IsTime (last_at t ms) ms)
  unfolding last_at
  last_at-bounds t [] = (omega arith, tt, inl refl)
  last_at-bounds t (m ∷ ms) =
      let (a, b, c) = last_at-bounds (max t m.signal.timestamp) ms in
      (
        omega (arith, a),
        (omega (arith, a), b),
        elim c [
          | inr h ↦ inr (inr h)
          | inl e ↦ elim (max-cases t m.signal.timestamp) [
            | inl k ↦ inl (e ∙ k)
            | inr k ↦ inr (inl (e ∙ k))
          ]
        ],
      )
