-- ===== src/Client/Settled.antt =====
-- What the sending of a group settles (`GroupSender::send` of crates/core/src/lib.rs).
use ops_signal.Prelude.{
  ℕ, ◌-◌, Bool, true, false, Option, none, some, List, [], ◌∷◌, ◌++◌, ◌≡◌, ◌≢◌, refl, sym, subst,
  some-injective, All, ◌⊎◌, inl, inr, append_assoc, append-nil, arith, ap, ◌∙◌, if◌then◌else◌,
}
use ops_signal.Signal.{Signal}
use ops_signal.Throttle.{Table, Row, release, delete_one}
use ops_signal.Delivery.{DeliveryResult, DeliveryStatus, failed}
use ops_signal.Groups.{Member, Closed}
use ops_signal.Groups.Digest.{digest}
use ops_signal.Groups.Digests.{digest-Sums}
use ops_signal.Client.{Client, Setting, SinkCall, completed, recorded, settle, tell}
use ops_signal.Client.Digests.{
  gate_digest, settle_members, complete_members, send_as, send_group, send_members, send_digest,
}

release-append :
    (fault : Row → Bool) (table : Table) (xs ys : List Row)
    → release fault (release fault table xs) ys ≡ release fault table (xs ++ ys)
unfolding release
release-append fault table [] ys = refl
release-append fault table (x ∷ xs) ys =
    release-append fault (if fault x then table else delete_one x table) xs ys

-- The call is among those that the sink got.
abbrev pub IsIn : {M : Type 0} → SinkCall M → List (SinkCall M) → Type 0
IsIn x [] = ⊥
IsIn x (y ∷ ys) = (x ≡ y) ⊎ IsIn x ys

IsIn-right :
    {M : Type 0} (x : SinkCall M) (xs ys : List (SinkCall M)) → IsIn x ys → IsIn x (xs ++ ys)
IsIn-right x [] ys h = h
IsIn-right x (_ ∷ xs) ys h = inr (IsIn-right x xs ys h)

-- A member whose row waits on the digest has got the result.
abbrev pub HasOutcome : {M : Type 0} → DeliveryResult → List (SinkCall M) → Member M → Type 0
HasOutcome result calls m = m.owns_row ≡ true → IsIn (completed m.signal result) calls

All-HasOutcome :
    {M : Type 0} (result : DeliveryResult) (xs ys : List (SinkCall M)) (ms : List (Member M))
    → All (HasOutcome result ys) ms
    → All (HasOutcome result (xs ++ ys)) ms
All-HasOutcome result xs ys [] h = tt
All-HasOutcome result xs ys (m ∷ ms) h =
    (λ o. IsIn-right _ xs ys (h.0 o), All-HasOutcome result xs ys ms h.1)

All-if_cons :
    {M : Type 0} (b : Bool) (result : DeliveryResult) (y : SinkCall M) (ys : List (SinkCall M))
    (ms : List (Member M))
    → All (HasOutcome result ys) ms
    → All (HasOutcome result (if b then y ∷ ys else ys)) ms
All-if_cons true result y ys ms h = All-HasOutcome result (y ∷ []) ys ms h
All-if_cons false result y ys ms h = h

IsIn-if_cons :
    {M : Type 0} (b : Bool) (y : SinkCall M) (ys : List (SinkCall M))
    → b ≡ true
    → IsIn y (if b then y ∷ ys else ys)
IsIn-if_cons true y ys e = inl refl
IsIn-if_cons false y ys e = ground arith

module _ {M : Type 0} (env : Setting M) where
  -- What was admitted for the members.
  abbrev pub rows_of : List (Member M) → List Row
  rows_of [] = []
  rows_of (m ∷ ms) = m.admission.rows ++ rows_of ms

  settle-append :
      (xs ys : List Row) (result : DeliveryResult) (table : Option Table)
      → settle env (record { rows = ys }) result (settle env (record { rows = xs }) result table)
        ≡ settle env (record { rows = xs ++ ys }) result table
  unfolding settle
  settle-append xs ys result none = refl
  settle-append xs ys result (some table) =
      ground (arith, release-append env.release_fault table xs ys)

  settle_members-settle :
      (ms : List (Member M)) (rows : List Row) (result : DeliveryResult) (table : Option Table)
      → settle_members env ms result (settle env (record { rows = rows }) result table)
        ≡ settle env (record { rows = rows ++ rows_of ms }) result table
  unfolding settle_members
  settle_members-settle [] rows result table = rw append-nil refl
  settle_members-settle (m ∷ ms) rows result table =
      ap (settle_members env ms result) (settle-append rows m.admission.rows result table)
      ∙ settle_members-settle ms (rows ++ m.admission.rows) result table
      ∙ ap (λ r. settle env (record { rows = r }) result table)
          (append_assoc rows m.admission.rows (rows_of ms))

  completed-complete_members :
      (ms : List (Member M)) (result : DeliveryResult)
      → All (HasOutcome result (complete_members env ms result)) ms
  unfolding complete_members
  completed-complete_members [] result = tt
  completed-complete_members (m ∷ ms) result = (
    IsIn-if_cons m.owns_row (completed m.signal result) _,
    All-if_cons m.owns_row result (completed m.signal result) _ ms
        (completed-complete_members ms result),
  )

  settle_kept :
      (rows : List Row) (result : DeliveryResult) (before : Option Table)
      → result.status ≢ failed
      → settle env (record { rows = rows }) result before ≡ before
  unfolding settle
  settle_kept rows result none n = refl
  settle_kept rows result (some table) n = ground arith

  -- The sends are released from the table after a failure, and only then.
  pub record IsReleased (rows : List Row) (status : DeliveryStatus) (before after : Option Table)
      : Type 0 where
    pub without : before ≡ none → after ≡ none
    pub released :
        (table : Table)
        → before ≡ some table
        → status ≡ failed
        → after ≡ some (release env.release_fault table rows)
    pub kept : status ≢ failed → after ≡ before

  settle-IsReleased :
      (rows : List Row) (result : DeliveryResult) (before : Option Table)
      → IsReleased rows result.status before (settle env (record { rows = rows }) result before)
  unfolding settle
  settle-IsReleased rows result none = record {
    without = λ e. refl;
    released = λ table e f. ground arith;
    kept = λ n. refl;
  }
  settle-IsReleased rows result (some table) = record {
    without = λ e. ground arith;
    released = λ t e f. rw (f, some-injective _ _ e) refl;
    kept = λ n. settle_kept rows result (some table) n;
  }

  -- What sending a group as a signal leaves behind.
  pub record Settles (now : ℕ) (signal : Signal M) (closed : Closed M) (c c' : Client M)
      (result : DeliveryResult) : Type 0 where
    pub throttle :
        IsReleased
          ((gate_digest env now closed.route signal c.throttle).1.rows ++ rows_of closed.members)
          result.status
          (gate_digest env now closed.route signal c.throttle).0
          c'.throttle
    pub outcomes : All (HasOutcome result c'.sink) closed.members
    pub alerts : c'.alerts ≡ c.alerts
    pub groups : c'.groups ≡ record c.groups { in_flight = c.groups.in_flight - 1 }

  Settles-send_as :
      (now : ℕ) (schedule : List ℕ) (single : Bool) (signal : Signal M) (closed : Closed M)
      (c : Client M)
      → Settles now signal closed c
          (send_as env now schedule single signal closed c).0
          (send_as env now schedule single signal closed c).1
  unfolding send_as
  Settles-send_as now schedule single signal closed c = record {
    throttle =
        subst (IsReleased _ _ _)
          (sym (
            settle_members-settle closed.members
              (gate_digest env now closed.route signal c.throttle).1.rows
              (send_as env now schedule single signal closed c).1
              (gate_digest env now closed.route signal c.throttle).0))
          (settle-IsReleased _ _ (gate_digest env now closed.route signal c.throttle).0);
    outcomes = All-HasOutcome _ _ _ closed.members (completed-complete_members closed.members _);
    alerts = refl;
    groups = refl;
  }

  -- The signal that a group is sent as: its only member's, or the digest.
  abbrev pub IsSentAs : ℕ → ℕ → Closed M → Signal M → List (Member M) → Type 0
  IsSentAs id now closed signal [] = ⊥
  IsSentAs id now closed signal (m ∷ []) = signal ≡ m.signal
  IsSentAs id now closed signal (m ∷ _ ∷ _) =
      digest env.json env.sha256 env.key_of env.json_text env.empty id now closed ≡ some signal

  -- A group that has members is sent as its only member's signal, or as its digest. When it has
  -- been sent, whatever its providers did and if the throttle turned it down: if the result is
  -- failed, all that was admitted for the digest and for every member is released, but for the rows
  -- whose DELETE fails, and nothing is otherwise; every member whose row waits on the digest has got
  -- the result in the sink; the alert book and the open groups are as they were, and one send less
  -- is in flight.
  pub send_group-Settles :
      (id now : ℕ) (schedule : List ℕ) (closed : Closed M) (c : Client M) (m : Member M)
      (ms : List (Member M))
      → closed.members ≡ m ∷ ms
      → (signal : Signal M) × (c' : Client M) × (result : DeliveryResult) × (send_group env id now
            schedule closed c
          ≡ some (c', result))
        × IsSentAs id now closed signal (m ∷ ms)
        × Settles now signal closed c c' result
  unfolding send_group send_members send_digest
  send_group-Settles id now schedule closed c m [] e =
      let sent = send_as env now schedule true m.signal closed c in
      (
        m.signal,
        sent.0,
        sent.1,
        ap (send_members env id now schedule closed c) e,
        refl,
        Settles-send_as now schedule true m.signal closed c,
      )
  send_group-Settles id now schedule closed c m (n ∷ ms) e =
      let d =
        digest-Sums env.sha256 env.key_of env.json_text env.json env.empty id now closed m (n ∷ ms)
          e in
      let sent = send_as env now schedule false d.0 closed (tell env (recorded d.0) c) in
      let s = Settles-send_as now schedule false d.0 closed (tell env (recorded d.0) c) in
      (
        d.0,
        sent.0,
        sent.1,
        ap (send_members env id now schedule closed c) e
            ∙ ap (send_digest env now schedule closed c) d.1,
        d.1,
        record {
          throttle = s.throttle;
          outcomes = s.outcomes;
          alerts = s.alerts;
          groups = s.groups;
        },
      )
