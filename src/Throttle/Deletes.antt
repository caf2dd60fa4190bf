-- ===== src/Throttle/Deletes.antt =====
-- What deleting one row does to the table `throttle` (crates/core/src/throttle.rs).
use ops_signal.Prelude.{
  ℕ, ◌<◌, String, Bool, true, false, [], ◌∷◌, ◌++◌, ◌≡◌, ◌⊎◌, refl, sym, ap, subst, eq_iff, eq_refl,
  any, keep, Bool-cases, inl, inr, arith,
}
use ops_signal.Throttle.{Row, Table, count_since, prune, same_row, delete_one}
use ops_signal.Throttle.Rows.{blocks, blocks-append_one, count_since-append_one}

pub same_row-eq : (a b : Row) → same_row a b ≡ true → a ≡ b
same_row-eq a b h = ground (arith, eq_iff a.route b.route, eq_iff a.key b.key)

pub same_row_refl : (a : Row) → same_row a a ≡ true
same_row_refl a = ground (arith, eq_refl a.route, eq_refl a.key)

pub blocks-delete_one :
    (route key : String) (t window : ℕ) (rows : Table) (send : Row)
    → blocks route key t window (delete_one send (rows ++ send ∷ []))
      ≡ blocks route key t window rows
unfolding delete_one
blocks-delete_one route key t window [] send = rw same_row_refl
blocks-delete_one route key t window (r ∷ rows) send = elim (Bool-cases (same_row r send)) [
  | inl e ↦
      rw e (ground (arith, blocks-append_one route key t window rows send, same_row-eq r send e))
  | inr e ↦ rw e (ground (arith, blocks-delete_one route key t window rows send))
]

pub count_since-delete_one :
    (route : String) (t per : ℕ) (rows : Table) (send : Row)
    → count_since route t per (delete_one send (rows ++ send ∷ [])) ≡ count_since route t per rows
unfolding delete_one count_since
count_since-delete_one route t per [] send = rw same_row_refl
count_since-delete_one route t per (r ∷ rows) send = elim (Bool-cases (same_row r send)) [
  | inl e ↦
      rw e (ground (arith, count_since-append_one route t per rows send, same_row-eq r send e))
  | inr e ↦ rw e (ground (arith, count_since-delete_one route t per rows send))
]

pub prune-append_one :
    (window : ℕ) (table : Table) (send : Row)
    → 0 < window
    → prune send.route send.sent_at window (table ++ send ∷ [])
      ≡ prune send.route send.sent_at window table ++ send ∷ []
unfolding prune
prune-append_one window [] send h = ground arith
prune-append_one window (r ∷ rows) send h = ground (arith, prune-append_one window rows send)

-- What deletes one row does not mind what else is dropped.
pub delete_one-keep_out :
    (p : Row → Bool) (send : Row) (rows : Table)
    → p send ≡ false
    → delete_one send (keep p rows) ≡ keep p rows
unfolding delete_one
delete_one-keep_out p send [] h = refl
delete_one-keep_out p send (r ∷ rows) h = elim (Bool-cases (same_row r send)) [
  | inl e ↦ rw (same_row-eq r send e, h) (delete_one-keep_out p send rows h)
  | inr e ↦ elim (Bool-cases (p r)) [
    | inl k ↦ rw (k, e) (ap (λ l. r ∷ l) (delete_one-keep_out p send rows h))
    | inr k ↦ rw k (delete_one-keep_out p send rows h)
  ]
]

pub delete_one-keep :
    (p : Row → Bool) (send : Row) (rows : Table)
    → delete_one send (keep p rows) ≡ keep p (delete_one send rows)
unfolding delete_one
delete_one-keep p send [] = refl
delete_one-keep p send (r ∷ rows) = elim (Bool-cases (same_row r send)) [
  | inl e ↦ elim (Bool-cases (p r)) [
    | inl k ↦ rw (e, k) (rw e refl)
    | inr k ↦
        rw (e, k)
          (delete_one-keep_out p send rows (subst (λ x. p x ≡ false) (same_row-eq r send e) k))
  ]
  | inr e ↦ elim (Bool-cases (p r)) [
    | inl k ↦ rw (e, k) (rw e (ap (λ l. r ∷ l) (delete_one-keep p send rows)))
    | inr k ↦ rw (e, k) (delete_one-keep p send rows)
  ]
]

pub delete_one-prune :
    (route : String) (now window : ℕ) (send : Row) (rows : Table)
    → delete_one send (prune route now window rows) ≡ prune route now window (delete_one send rows)
unfolding prune
delete_one-prune route now window send rows = delete_one-keep _ send rows

-- The row is in the table.
abbrev pub has_row : Row → Table → Bool
has_row send = any (λ r. same_row r send)

pub has_row-append :
    (send : Row) (xs ys : Table) → has_row send xs ≡ true → has_row send (xs ++ ys) ≡ true
has_row-append send [] ys h = ground arith
has_row-append send (r ∷ xs) ys h = ground (arith, has_row-append send xs ys)

pub has_row_last : (send : Row) (xs : Table) → has_row send (xs ++ send ∷ []) ≡ true
has_row_last send [] = rw same_row_refl refl
has_row_last send (r ∷ xs) = ground (arith, has_row_last send xs)

pub has_row-keep :
    (p : Row → Bool) (send : Row) (rows : Table)
    → p send ≡ true
    → has_row send rows ≡ true
    → has_row send (keep p rows) ≡ true
has_row-keep p send [] h k = ground arith
has_row-keep p send (r ∷ rows) h k = elim (Bool-cases (same_row r send)) [
  | inl e ↦ rw (subst (λ x. p x ≡ true) (sym (same_row-eq r send e)) h) (rw e refl)
  | inr e ↦ ground (arith, e, has_row-keep p send rows h)
]

-- The row is there, or is older than all that is still to come.
abbrev pub Lasts : Row → ℕ → Table → Type 0
Lasts send now table = (has_row send table ≡ true) ⊎ (send.sent_at < now)

pub delete_one-append :
    (send y : Row) (rows : Table)
    → Lasts send y.sent_at rows
    → delete_one send (rows ++ y ∷ []) ≡ delete_one send rows ++ y ∷ []
unfolding delete_one
delete_one-append send y [] l = ground (arith, l)
delete_one-append send y (r ∷ rows) l = elim (Bool-cases (same_row r send)) [
  | inl e ↦ rw e refl
  | inr e ↦ rw e (
      ap (λ t. r ∷ t)
        (delete_one-append send y rows (elim l [ inl h ↦ inl (rw e at h) | inr h ↦ inr h ])))
]
