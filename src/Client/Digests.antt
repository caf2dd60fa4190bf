-- ===== src/Client/Digests.antt =====
-- `GroupSender::send` of crates/core/src/lib.rs. When it returns, the guard of the group is
-- dropped, which counts one send less in flight.
use ops_signal.Prelude.{
  ℕ, ◌-◌, String, Bool, true, false, Option, none, some, List, [], ◌∷◌, ◌++◌, map, format, Result,
  ok, err, if◌then◌else◌,
}
use ops_signal.Signal.{Signal}
use ops_signal.Routing.{Route, targets, describe}
use ops_signal.Routing.Plan.{DeliveryPlan}
use ops_signal.Throttle.{Table, Admission, admit_digest}
use ops_signal.Delivery.{DeliveryResult}
use ops_signal.Delivery.Chain.{run}
use ops_signal.Delivery.Summary.{summarize}
use ops_signal.Groups.{Member, Closed}
use ops_signal.Groups.Digest.{digest}
use ops_signal.Client.{Client, Setting, SinkCall, recorded, noted, completed, settle, tell}

module _ {M : Type 0} (env : Setting M) where
  -- The gate: `admit_digest`, or no throttle.
  unfoldable pub gate_digest :
      ℕ → Route → Signal M → Option Table → Option Table × Admission × Result String (Unit {0})
  gate_digest now route signal none = (none, record { rows = [] }, ok tt)
  gate_digest now route signal (some table) =
      let (g, verdict) =
        admit_digest env.key_of signal now env.throttle_fault
          (record { table = table; admission = record { rows = [] } }) route in
      (some g.table, g.admission, verdict)

  -- The `match gate`.
  unfoldable pub digest_plan : Route → Result String (Unit {0}) → DeliveryPlan
  digest_plan route (ok _) = record { targets = targets route; suppressed = []; grouped = [] }
  digest_plan route (err reason) = record {
    targets = [];
    suppressed = format ("route " ∷ describe route ∷ ": " ∷ reason ∷ []) ∷ [];
    grouped = [];
  }

  -- The members' admissions are settled, one after the other.
  unfoldable pub settle_members : List (Member M) → DeliveryResult → Option Table → Option Table
  settle_members [] result table = table
  settle_members (m ∷ ms) result table =
      settle_members ms result (settle env m.admission result table)

  -- The members whose row waits on the digest take its outcome.
  unfoldable pub complete_members : List (Member M) → DeliveryResult → List (SinkCall M)
  complete_members [] result = []
  complete_members (m ∷ ms) result =
      let rest = complete_members ms result in
      if m.owns_row then completed m.signal result ∷ rest else rest

  -- From the signal to send: a member's own, or the digest, whose row is the sender's to complete.
  unfoldable pub send_as :
      ℕ → List ℕ → Bool → Signal M → Closed M → Client M → Client M × DeliveryResult
  send_as now schedule single signal closed c =
      let (table, admission, verdict) = gate_digest now closed.route signal c.throttle in
      let plan = digest_plan closed.route verdict in
      let t = run env.registry (λ name. none) schedule plan.targets in
      let result = summarize plan t.outcomes none in
      (
        record c {
          groups = record c.groups { in_flight = c.groups.in_flight - 1 };
          throttle = settle_members closed.members result (settle env admission result table);
          sink =
              c.sink
              ++ map (noted signal) t.written
              ++ (if single then [] else completed signal result ∷ [])
              ++ complete_members closed.members result;
        },
        result,
      )

  -- The digest is recorded, then sent.
  unfoldable pub send_digest :
      ℕ → List ℕ → Closed M → Client M → Option (Signal M) → Option (Client M × DeliveryResult)
  send_digest now schedule closed c none = none
  send_digest now schedule closed c (some d) =
      some (send_as now schedule false d closed (tell env (recorded d) c))

  -- A group of one is sent as that signal.
  unfoldable pub send_members :
      ℕ → ℕ → List ℕ → Closed M → Client M → List (Member M) → Option (Client M × DeliveryResult)
  send_members id now schedule closed c [] = none
  send_members id now schedule closed c (m ∷ []) =
      some (send_as now schedule true m.signal closed c)
  send_members id now schedule closed c (m ∷ _ ∷ _) =
      send_digest now schedule closed c
        (digest env.json env.sha256 env.key_of env.json_text env.empty id now closed)

  -- `GroupSender::send`; `none` is the panic that a group without members would be.
  unfoldable pub send_group :
      ℕ → ℕ → List ℕ → Closed M → Client M → Option (Client M × DeliveryResult)
  send_group id now schedule closed c = send_members id now schedule closed c closed.members
