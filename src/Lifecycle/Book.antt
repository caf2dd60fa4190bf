-- ===== src/Lifecycle/Book.antt =====
-- The alert book as a map from keys and providers to rows (crates/core/src/lifecycle.rs).
use ops_signal.Prelude.{
  ℕ, String, false, ◌&&◌, ◌||◌, Option, none, some, List, [], ◌∷◌, ◌≡◌, refl, ◌==◌, any, eq_iff,
  eq_refl, find, if◌then◌else◌, arith, Bool-cases, inl, inr,
}
use ops_signal.Lifecycle.{AlertState, AlertRow, is_row, upsert_alert, move_alert}

-- The row of a key and a provider.
abbrev pub row_of : String → String → List AlertRow → Option AlertRow
row_of key provider = find (is_row key provider)

-- `PRIMARY KEY (dedup_key, provider)`.
abbrev pub IsKeyed : List AlertRow → Type 0
IsKeyed [] = Unit
IsKeyed (r ∷ rows) = (any (is_row r.dedup_key r.provider) rows ≡ false) × IsKeyed rows

pub row_of-upsert_alert :
    (key provider : String) (row : AlertRow) (rows : List AlertRow)
    → row_of key provider (upsert_alert row rows)
      ≡ (if is_row key provider row then some row else row_of key provider rows)
unfolding upsert_alert
row_of-upsert_alert key provider row [] = refl
row_of-upsert_alert key provider row (r ∷ rows) =
    elim (Bool-cases (is_row row.dedup_key row.provider r)) [
      | inl e ↦
          rw e (ground (arith, eq_iff r.dedup_key row.dedup_key, eq_iff r.provider row.provider))
      | inr e ↦ rw e (
          ground (
            arith,
            row_of-upsert_alert key provider row rows,
            eq_iff r.dedup_key key,
            eq_iff r.provider provider,
            eq_iff row.dedup_key key,
            eq_iff row.provider provider,
            eq_refl key,
            eq_refl provider,
          ))
    ]

-- What `UPDATE` makes of the row of a key and a provider.
abbrev pub moved : AlertState → ℕ → Option AlertRow → Option AlertRow
moved state now none = none
moved state now (some r) = some (record r { state = state; updated_at = now })

pub row_of-move_alert :
    (key provider k p : String) (state : AlertState) (now : ℕ) (rows : List AlertRow)
    → row_of key provider (move_alert k p state now rows) ≡ (
        if k == key && p == provider
        then moved state now (row_of key provider rows)
        else row_of key provider rows)
unfolding move_alert
row_of-move_alert key provider k p state now [] = ground arith
row_of-move_alert key provider k p state now (r ∷ rows) = ground (
  arith,
  row_of-move_alert key provider k p state now rows,
  eq_iff r.dedup_key k,
  eq_iff r.provider p,
  eq_iff k key,
  eq_iff p provider,
  eq_refl k,
  eq_refl p,
)

any-upsert_alert :
    (key provider : String) (row : AlertRow) (rows : List AlertRow)
    → any (is_row key provider) (upsert_alert row rows)
      ≡ (is_row key provider row || any (is_row key provider) rows)
unfolding upsert_alert
any-upsert_alert key provider row [] = refl
any-upsert_alert key provider row (r ∷ rows) = ground (
  arith,
  any-upsert_alert key provider row rows,
  eq_iff r.dedup_key row.dedup_key,
  eq_iff r.provider row.provider,
)

pub IsKeyed-upsert_alert :
    (row : AlertRow) (rows : List AlertRow) → IsKeyed rows → IsKeyed (upsert_alert row rows)
unfolding upsert_alert
IsKeyed-upsert_alert row [] h = (refl, tt)
IsKeyed-upsert_alert row (r ∷ rows) h = ground (
  arith,
  IsKeyed-upsert_alert row rows,
  any-upsert_alert r.dedup_key r.provider row rows,
  eq_iff r.dedup_key row.dedup_key,
  eq_iff r.provider row.provider,
  eq_iff row.dedup_key r.dedup_key,
  eq_iff row.provider r.provider,
  eq_refl row.dedup_key,
  eq_refl row.provider,
)

any-move_alert :
    (key provider k p : String) (state : AlertState) (now : ℕ) (rows : List AlertRow)
    → any (is_row key provider) (move_alert k p state now rows) ≡ any (is_row key provider) rows
unfolding move_alert
any-move_alert key provider k p state now [] = refl
any-move_alert key provider k p state now (r ∷ rows) =
    ground (arith, any-move_alert key provider k p state now rows)

pub IsKeyed-move_alert :
    (k p : String) (state : AlertState) (now : ℕ) (rows : List AlertRow)
    → IsKeyed rows
    → IsKeyed (move_alert k p state now rows)
unfolding move_alert
IsKeyed-move_alert k p state now [] h = tt
IsKeyed-move_alert k p state now (r ∷ rows) h = ground (
  arith,
  IsKeyed-move_alert k p state now rows,
  any-move_alert r.dedup_key r.provider k p state now rows,
)
