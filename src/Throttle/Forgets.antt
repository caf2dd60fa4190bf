-- ===== src/Throttle/Forgets.antt =====
-- Pruning forgets nothing that matters: the table decides as the whole history does
-- (crates/core/src/throttle.rs).
use ops_signal.Prelude.{
  ℕ, ◌≤◌, max, String, true, false, not, List, [], ◌∷◌, ◌++◌, ◌≡◌, ◌≢◌, refl, ◌==◌, eq_iff,
  Bool-cases, inl, inr, arith, ap, ◌∙◌, ◌⊎◌,
}
use ops_signal.Throttle.{Row, Table, count_since, prune, window_of, period_of, try_admit}
use ops_signal.Throttle.Rows.{
  blocks, duplicate-repeats, over_limit-is_full, blocks-append_one, count_since-append_one,
  blocks-prune, count_since-prune, blocks-prune_ne, count_since-prune_ne,
}
use ops_signal.Throttle.History.{Rules, turns_down, InOrder, is_ok, admitted, permitted}

same_text-cases : (a b : String) → (a ≡ b) ⊎ (a ≢ b)
same_text-cases a b = elim (Bool-cases (a == b)) [
  | inl e ↦ inl ((eq_iff a b).0 e)
  | inr e ↦ inr (λ p. cc (e, (eq_iff a b).1 p))
]

pub blocks-kept :
    (route other key : String) (now t window kept : ℕ) (table : Table)
    → now ≤ t
    → (other ≡ route → window ≤ kept)
    → blocks route key t window (prune other now kept table) ≡ blocks route key t window table
blocks-kept route other key now t window kept table h k = elim (same_text-cases other route) [
  | inl e ↦ rw e (blocks-prune route key now t window kept table h (k e))
  | inr e ↦ blocks-prune_ne route other key now t window kept table e
]

pub count_since-kept :
    (route other : String) (now t per kept : ℕ) (table : Table)
    → now ≤ t
    → (other ≡ route → per ≤ kept)
    → count_since route t per (prune other now kept table) ≡ count_since route t per table
count_since-kept route other now t per kept table h k = elim (same_text-cases other route) [
  | inl e ↦ rw e (count_since-prune route now t per kept table h (k e))
  | inr e ↦ count_since-prune_ne route other now t per kept table e
]

-- `try_admit` lets a send through exactly if the rules do, by the rows of the table.
pub try_admit_verdict :
    (rules : Rules) (table : Table) (send : Row)
    → is_ok (try_admit table send rules.dedup rules.rate).1 ≡ not (turns_down rules table send)
unfolding try_admit
try_admit_verdict rules table send = ground (
  arith,
  duplicate-repeats send.route send.key send.sent_at rules.dedup table,
  over_limit-is_full send.route send.sent_at rules.rate table,
)

pub try_admit_down :
    (rules : Rules) (table : Table) (send : Row)
    → turns_down rules table send ≡ true
    → (try_admit table send rules.dedup rules.rate).0 ≡ table
unfolding try_admit
try_admit_down rules table send down = ground (
  arith,
  duplicate-repeats send.route send.key send.sent_at rules.dedup table,
  over_limit-is_full send.route send.sent_at rules.rate table,
)

pub try_admit_up :
    (rules : Rules) (table : Table) (send : Row)
    → turns_down rules table send ≡ false
    → (try_admit table send rules.dedup rules.rate).0
      ≡ prune send.route send.sent_at
          (max (window_of rules.dedup) (period_of rules.rate))
          (table ++ send ∷ [])
unfolding try_admit
try_admit_up rules table send up = ground (
  arith,
  duplicate-repeats send.route send.key send.sent_at rules.dedup table,
  over_limit-is_full send.route send.sent_at rules.rate table,
)

module _ (rules : String → Rules) where
  -- From `now` on, queries on the table answer as queries on the history.
  pub record Remembers (now : ℕ) (table history : List Row) : Type 0 where
    pub blocked :
        (route key : String) (t : ℕ)
        → now ≤ t
        → blocks route key t (window_of (rules route).dedup) table
          ≡ blocks route key t (window_of (rules route).dedup) history
    pub counted :
        (route : String) (t : ℕ)
        → now ≤ t
        → count_since route t (period_of (rules route).rate) table
          ≡ count_since route t (period_of (rules route).rate) history

  pub Remembers-later :
      {now t : ℕ} {table history : List Row}
      → now ≤ t
      → Remembers now table history
      → Remembers t table history
  Remembers-later h m = record {
    blocked = λ route key u k. m.blocked route key u (omega arith);
    counted = λ route u k. m.counted route u (omega arith);
  }

  pub Remembers-send :
      {now : ℕ} (table history : List Row) (send : Row)
      → now ≤ send.sent_at
      → Remembers now table history
      → Remembers send.sent_at
          (prune send.route send.sent_at
            (max (window_of (rules send.route).dedup) (period_of (rules send.route).rate))
            (table ++ send ∷ []))
          (history ++ send ∷ [])
  Remembers-send table history send h m = record {
    blocked = λ route key t k.
        blocks-kept route send.route key send.sent_at t _ _ (table ++ send ∷ []) k
          (λ e. rw e (omega arith))
        ∙ (ground (
          arith,
          blocks-append_one route key t (window_of (rules route).dedup) table send,
          blocks-append_one route key t (window_of (rules route).dedup) history send,
          m.blocked route key t (omega arith),
        ));
    counted = λ route t k.
        count_since-kept route send.route send.sent_at t _ _ (table ++ send ∷ []) k
          (λ e. rw e (omega arith))
        ∙ (ground (
          arith,
          count_since-append_one route t (period_of (rules route).rate) table send,
          count_since-append_one route t (period_of (rules route).rate) history send,
          m.counted route t (omega arith),
        ));
  }

  turns_down-Remembers :
      {now : ℕ} (table history : List Row) (send : Row)
      → now ≤ send.sent_at
      → Remembers now table history
      → turns_down (rules send.route) table send ≡ turns_down (rules send.route) history send
  turns_down-Remembers table history send h m =
      ground
        (arith, m.blocked send.route send.key send.sent_at h, m.counted send.route send.sent_at h)

  admitted-Remembers :
      (now : ℕ) (table history sends : List Row)
      → InOrder now sends
      → Remembers now table history
      → admitted rules table sends ≡ permitted rules history sends
  unfolding admitted permitted
  admitted-Remembers now table history [] o m = refl
  admitted-Remembers now table history (send ∷ sends) o m =
      elim (Bool-cases (turns_down (rules send.route) history send)) [
        | inl down ↦
            let here = turns_down-Remembers table history send o.0 m ∙ down in
            simp
              (
                try_admit_verdict (rules send.route) table send,
                try_admit_down (rules send.route) table send here,
                here,
                down,
              )
              (admitted-Remembers send.sent_at table history sends o.1 (Remembers-later o.0 m))
        | inr up ↦
            let here = turns_down-Remembers table history send o.0 m ∙ up in
            simp
              (
                try_admit_verdict (rules send.route) table send,
                try_admit_up (rules send.route) table send here,
                here,
                up,
              )
              (ap (λ l. send ∷ l)
                (admitted-Remembers send.sent_at _ (history ++ send ∷ []) sends o.1
                  (Remembers-send table history send o.0 m)))
      ]

  -- For sends that come in order of time, on any routes, the table with its pruning lets through
  -- exactly the sends that a table which never forgets lets through.
  pub admitted-eq-permitted :
      (sends : List Row) → InOrder 0 sends → admitted rules [] sends ≡ permitted rules [] sends
  admitted-eq-permitted sends o =
      admitted-Remembers 0 [] [] sends o
        (record { blocked = λ route key t h. refl; counted = λ route t h. refl })
