-- ===== src/Throttle/Release.antt =====
-- `Throttle::release` takes a send back (crates/core/src/throttle.rs).
use ops_signal.Prelude.{
  ℕ, ◌+◌, ◌≤◌, ◌<◌, max, String, false, not, ◌&&◌, List, [], ◌∷◌, ◌++◌, ◌≡◌, ◌==◌, sym, ap, subst,
  eq_iff, leb, Bool-cases, inl, inr, arith, ◌∙◌, append_assoc, append-nil, and-eq-true,
}
use ops_signal.Throttle.{Row, Table, prune, window_of, period_of, try_admit, delete_one, release}
use ops_signal.Throttle.History.{Rules, turns_down, InOrder, admitted}
use ops_signal.Throttle.Forgets.{
  Remembers, Remembers-later, Remembers-send, try_admit_verdict, try_admit_down, try_admit_up,
  blocks-kept, count_since-kept,
}
use ops_signal.Throttle.Deletes.{
  blocks-delete_one, count_since-delete_one, prune-append_one, delete_one-prune, has_row-append,
  has_row_last, has_row-keep, Lasts, delete_one-append,
}

module _ (rules : String → Rules) where
  abbrev kept_for : String → ℕ
  kept_for route = max (window_of (rules route).dedup) (period_of (rules route).rate)

  -- The table after sends that `try_admit` was asked for.
  unfoldable pub after : Table → List Row → Table
  after table [] = table
  after table (send ∷ sends) =
      after (try_admit table send (rules send.route).dedup (rules send.route).rate).0 sends

  -- The time of the last of them.
  unfoldable pub last_time : ℕ → List Row → ℕ
  last_time now [] = now
  last_time now (send ∷ sends) = last_time send.sent_at sends

  Lasts-step :
      (send y : Row) (rows : Table)
      → 0 < kept_for send.route
      → Lasts send y.sent_at rows
      → Lasts send y.sent_at (prune y.route y.sent_at (kept_for y.route) (rows ++ y ∷ []))
  unfolding prune
  Lasts-step send y rows w (inr h) = inr h
  Lasts-step send y rows w (inl h) =
      elim (Bool-cases (send.route == y.route && leb (send.sent_at + kept_for y.route) y.sent_at)) [
        | inr e ↦
            inl (has_row-keep _ send (rows ++ y ∷ []) (ap not e) (has_row-append send rows _ h))
        | inl e ↦
            let (a, b) = and-eq-true (send.route == y.route) _ e in
            let same : kept_for send.route ≡ kept_for y.route =
              ap kept_for ((eq_iff send.route y.route).0 a) in
            inr (ground (arith, w, same, b))
      ]

  Lasts-later :
      {now t : ℕ} (send : Row) (rows : Table) → now ≤ t → Lasts send now rows → Lasts send t rows
  Lasts-later send rows k (inl h) = inl h
  Lasts-later send rows k (inr h) = inr (omega (arith, h, k))

  Remembers-after :
      (send : Row) (now : ℕ) (table history later : List Row)
      → 0 < kept_for send.route
      → InOrder now later
      → Lasts send now table
      → Remembers rules now (delete_one send table) history
      → Remembers rules
          (last_time now later)
          (delete_one send (after table later))
          (history ++ admitted rules table later)
  unfolding after last_time admitted
  Remembers-after send now table history [] w o l m =
      subst (Remembers rules now (delete_one send table)) (sym (append-nil history)) m
  Remembers-after send now table history (y ∷ ys) w o l m =
      let l' = Lasts-later send table o.0 l in
      elim (Bool-cases (turns_down (rules y.route) table y)) [
        | inl down ↦
            simp
              (
                try_admit_verdict (rules y.route) table y,
                try_admit_down (rules y.route) table y down,
                down,
              )
              (Remembers-after send y.sent_at table history ys w o.1 l'
                (Remembers-later rules o.0 m))
        | inr up ↦
            let table' : Table = prune y.route y.sent_at (kept_for y.route) (table ++ y ∷ []) in
            let m' : Remembers rules y.sent_at (delete_one send table') (history ++ y ∷ []) =
              subst (λ t. Remembers rules y.sent_at t (history ++ y ∷ []))
                (sym (
                  delete_one-prune y.route y.sent_at (kept_for y.route) send (table ++ y ∷ [])
                  ∙ ap (prune y.route y.sent_at (kept_for y.route))
                      (delete_one-append send y table l')))
                (Remembers-send rules (delete_one send table) history y o.0 m) in
            simp
              (
                try_admit_verdict (rules y.route) table y,
                try_admit_up (rules y.route) table y up,
                up,
              )
              (subst (Remembers rules (last_time y.sent_at ys) (delete_one send (after table' ys)))
                (append_assoc history (y ∷ []) (admitted rules table' ys))
                (Remembers-after send y.sent_at table' (history ++ y ∷ []) ys w o.1
                  (Lasts-step send y table w l') m'))
      ]

  Remembers-deleted :
      (table : Table) (send : Row)
      → 0 < kept_for send.route
      → Remembers rules send.sent_at
          (delete_one send (prune send.route send.sent_at (kept_for send.route) table ++ send ∷ []))
          table
  Remembers-deleted table send h = record {
    blocked = λ route key t k.
        blocks-delete_one route key t _ _ send
        ∙ blocks-kept route send.route key send.sent_at t _ _ table k (λ e. rw e (omega arith));
    counted = λ route t k.
        count_since-delete_one route t _ _ send
        ∙ count_since-kept route send.route send.sent_at t _ _ table k (λ e. rw e (omega arith));
  }

  -- A send that was let through on a route with a window longer than 0, and that is released after
  -- any later sends, in order of time, on any routes, some let through and some turned down,
  -- and by a DELETE that does not fail, leaves a table on which every check from then on, on any
  -- route, is decided as if it had never been sent and the others that were let through had.
  pub release-try_admit :
      (table : Table) (send : Row) (later : List Row)
      → turns_down (rules send.route) table send ≡ false
      → 0 < max (window_of (rules send.route).dedup) (period_of (rules send.route).rate)
      → InOrder send.sent_at later
      → Remembers rules
          (last_time send.sent_at later)
          (release
            (λ r. false)
            (after (try_admit table send (rules send.route).dedup (rules send.route).rate).0 later)
            (send ∷ []))
          (table
            ++ admitted rules
                (try_admit table send (rules send.route).dedup (rules send.route).rate).0
                later)
  unfolding release
  release-try_admit table send later up h o =
      rw
        (
          try_admit_up (rules send.route) table send up,
          prune-append_one (kept_for send.route) table send h,
        )
        (Remembers-after send send.sent_at _ table later h o (inl (has_row_last send _))
          (Remembers-deleted table send h))
