-- ===== src/Lifecycle/Holders.antt =====
-- Who holds an alert after any deliveries (crates/core/src/lifecycle.rs).
use ops_signal.Prelude.{
  ℕ, String, Bool, false, not, ◌&&◌, Option, none, some, List, [], ◌∷◌, ◌≡◌, refl, ◌==◌, any,
  contains, eq_iff, if◌then◌else◌, arith, Bool-cases, Option-cases, inl, inr, ◌∙◌, ap,
}
use ops_signal.Signal.{Signal, Action, trigger, acknowledge, resolve}
use ops_signal.Delivery.{ProviderOutcome, DeliveryResult}
use ops_signal.Lifecycle.{
  AlertState, opened, acknowledged, resolved, AlertRow, is_resolved, is_row, select_open,
  open_alerts, holder_names, state_after, is_delivered, raised, write_action, write_outcomes,
  record_alerts,
}
use ops_signal.Lifecycle.Book.{
  row_of, IsKeyed, row_of-upsert_alert, row_of-move_alert, IsKeyed-upsert_alert, IsKeyed-move_alert,
}

-- The state of the alert of a key and a provider, if the book has it.
abbrev pub state_of : String → String → List AlertRow → Option AlertState
state_of key provider rows = elim (row_of key provider rows) [ none ↦ none | some r ↦ some r.state ]

-- What a delivered action makes of a state: a trigger opens the alert, the others move one that is
-- there.
abbrev pub acted : Action → Option AlertState → Option AlertState
acted trigger state = some opened
acted acknowledge none = none
acted acknowledge (some _) = some acknowledged
acted resolve none = none
acted resolve (some _) = some resolved

-- The provider got the action, and it was written.
abbrev pub got : (ProviderOutcome → Bool) → String → List ProviderOutcome → Bool
got fault provider = any (λ o. (is_delivered o.status && not (fault o)) && o.provider == provider)

module _ {M : Type 0} (fault : ProviderOutcome → Bool) (now : ℕ) (signal : Signal M)
    (refs : List (String × String)) where
  state_of-write_action :
      (a : Action) (key provider k : String) (o : ProviderOutcome) (rows : List AlertRow)
      → state_of key provider (write_action fault now signal refs a k o rows) ≡ (
          if k == key && o.provider == provider
          then acted a (state_of key provider rows)
          else state_of key provider rows)
  unfolding write_action state_after
  state_of-write_action trigger key provider k o rows =
      ground (arith, row_of-upsert_alert key provider (raised fault now signal refs k o) rows)
  state_of-write_action acknowledge key provider k o rows =
      ground (arith, row_of-move_alert key provider k o.provider (state_after acknowledge) now rows)
  state_of-write_action resolve key provider k o rows =
      ground (arith, row_of-move_alert key provider k o.provider (state_after resolve) now rows)

  IsKeyed-write_action :
      (a : Action) (k : String) (o : ProviderOutcome) (rows : List AlertRow)
      → IsKeyed rows
      → IsKeyed (write_action fault now signal refs a k o rows)
  unfolding write_action
  IsKeyed-write_action trigger k o rows h = IsKeyed-upsert_alert _ rows h
  IsKeyed-write_action acknowledge k o rows h = IsKeyed-move_alert k o.provider _ now rows h
  IsKeyed-write_action resolve k o rows h = IsKeyed-move_alert k o.provider _ now rows h

  acted_twice : (a : Action) (s : Option AlertState) → acted a (acted a s) ≡ acted a s
  acted_twice trigger s = refl
  acted_twice acknowledge none = refl
  acted_twice acknowledge (some _) = refl
  acted_twice resolve none = refl
  acted_twice resolve (some _) = refl

  state_of-write_outcomes :
      (key provider k : String) (os : List ProviderOutcome) (rows : List AlertRow)
      → state_of key provider (write_outcomes fault now signal refs k os rows) ≡ (
          if k == key && got fault provider os
          then acted signal.action (state_of key provider rows)
          else state_of key provider rows)
  unfolding write_outcomes
  state_of-write_outcomes key provider k [] rows = ground arith
  state_of-write_outcomes key provider k (o ∷ os) rows =
      elim (Bool-cases (is_delivered o.status && not (fault o))) [
        | inl e ↦ rw e (
            state_of-write_outcomes key provider k os _
            ∙ rw (state_of-write_action signal.action key provider k o rows)
                (ground (arith, acted_twice signal.action (state_of key provider rows))))
        | inr e ↦ rw e (state_of-write_outcomes key provider k os rows)
      ]

  IsKeyed-write_outcomes :
      (k : String) (os : List ProviderOutcome) (rows : List AlertRow)
      → IsKeyed rows
      → IsKeyed (write_outcomes fault now signal refs k os rows)
  unfolding write_outcomes
  IsKeyed-write_outcomes k [] rows h = h
  IsKeyed-write_outcomes k (o ∷ os) rows h =
      elim (Bool-cases (is_delivered o.status && not (fault o))) [
        | inl e ↦
            rw e (IsKeyed-write_outcomes k os _ (IsKeyed-write_action signal.action k o rows h))
        | inr e ↦ rw e (IsKeyed-write_outcomes k os rows h)
      ]

abbrev has_key : String → Option String → Bool
has_key key none = false
has_key key (some k) = k == key

-- One delivery that is recorded.
pub record Recording (M : Type 0) : Type 0 where
  pub signal : Signal M
  pub result : DeliveryResult
  pub refs : List (String × String)
  pub at : ℕ
  pub fault : ProviderOutcome → Bool

module _ {M : Type 0} where
  abbrev pub record_one : Recording M → List AlertRow → List AlertRow
  record_one r rows = record_alerts r.fault r.at r.signal r.refs r.result rows

  abbrev pub record_all : List (Recording M) → List AlertRow → List AlertRow
  record_all [] rows = rows
  record_all (r ∷ rs) rows = record_all rs (record_one r rows)

  -- The life of one alert: the actions on its key that its provider got, in order.
  abbrev pub life : String → String → List (Recording M) → Option AlertState → Option AlertState
  life key provider [] s = s
  life key provider (r ∷ rs) s = life key provider rs (
      if has_key key r.signal.dedup_key && got r.fault provider r.result.deliveries
      then acted r.signal.action s
      else s)

  state_of-record_one :
      (key provider : String) (r : Recording M) (rows : List AlertRow)
      → state_of key provider (record_one r rows) ≡ (
          if has_key key r.signal.dedup_key && got r.fault provider r.result.deliveries
          then acted r.signal.action (state_of key provider rows)
          else state_of key provider rows)
  unfolding record_alerts
  state_of-record_one key provider r rows = elim (Option-cases r.signal.dedup_key) [
    | inl e ↦ rw e refl
    | inr (k, e) ↦ rw e (
        state_of-write_outcomes r.fault r.at r.signal r.refs key provider k r.result.deliveries
          rows)
  ]

  IsKeyed-record_one :
      (r : Recording M) (rows : List AlertRow) → IsKeyed rows → IsKeyed (record_one r rows)
  unfolding record_alerts
  IsKeyed-record_one r rows h = elim (Option-cases r.signal.dedup_key) [
    | inl e ↦ rw e h
    | inr (k, e) ↦
        rw e (IsKeyed-write_outcomes r.fault r.at r.signal r.refs k r.result.deliveries rows h)
  ]

  state_of-record_all :
      (key provider : String) (rs : List (Recording M)) (rows : List AlertRow)
      → state_of key provider (record_all rs rows)
        ≡ life key provider rs (state_of key provider rows)
  state_of-record_all key provider [] rows = refl
  state_of-record_all key provider (r ∷ rs) rows =
      state_of-record_all key provider rs (record_one r rows)
      ∙ ap (life key provider rs) (state_of-record_one key provider r rows)

  IsKeyed-record_all :
      (rs : List (Recording M)) (rows : List AlertRow) → IsKeyed rows → IsKeyed (record_all rs rows)
  IsKeyed-record_all [] rows h = h
  IsKeyed-record_all (r ∷ rs) rows h = IsKeyed-record_all rs _ (IsKeyed-record_one r rows h)

abbrev pub is_held : Option AlertState → Bool
is_held none = false
is_held (some s) = not (is_resolved s)

contains-select_open_none :
    (key provider : String) (rows : List AlertRow)
    → any (is_row key provider) rows ≡ false
    → contains provider (holder_names (select_open key rows)) ≡ false
unfolding select_open
contains-select_open_none key provider [] h = refl
contains-select_open_none key provider (r ∷ rows) h =
    ground (arith, contains-select_open_none key provider rows)

contains-select_open :
    (key provider : String) (rows : List AlertRow)
    → IsKeyed rows
    → contains provider (holder_names (select_open key rows)) ≡ is_held (state_of key provider rows)
unfolding select_open
contains-select_open key provider [] h = refl
contains-select_open key provider (r ∷ rows) h = elim (Bool-cases (is_row key provider r)) [
  | inl e ↦ ground (
    arith,
    contains-select_open_none key provider rows,
    eq_iff r.dedup_key key,
    eq_iff r.provider provider,
  )
  | inr e ↦ ground (arith, contains-select_open key provider rows)
]

module _ {M : Type 0} where
  -- On a book with one row per key and provider, as the primary key makes it, that then records any
  -- deliveries, whatever writes fail: there is still one row per key and provider, and
  -- `open_alerts`, if its read does not fail, lists a provider for a key just when the life of
  -- that alert leaves it held. The life is what the delivered actions on the key make of the state
  -- in order, each provider's on its own: a trigger opens the alert, an `acknowledge` or `resolve`
  -- moves one that the book has, whatever its state, and is nothing to one that it has not.
  pub open_alerts-life :
      (key provider : String) (rs : List (Recording M)) (rows : List AlertRow)
      → IsKeyed rows
      → IsKeyed (record_all rs rows)
        × contains provider (holder_names (open_alerts false key (record_all rs rows)))
          ≡ is_held (life key provider rs (state_of key provider rows))
  unfolding open_alerts
  open_alerts-life key provider rs rows h =
      (let u = IsKeyed-record_all rs rows h in
        (
          u,
          contains-select_open key provider (record_all rs rows) u
              ∙ ap is_held (state_of-record_all key provider rs rows),
        ))
