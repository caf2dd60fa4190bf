-- ===== src/Client/Calls.antt =====
-- What holds of the calls of a client (crates/core/src/lib.rs).
use ops_signal.Prelude.{
  ℕ, String, Bool, true, false, Option, none, some, List, [], ◌∷◌, ◌++◌, ◌≡◌, refl, map, null,
  get_elem?, All, append_assoc, Result, ok, err, ◌⊎◌, inl, inr, Bool-cases, Option-cases, arith, ap,
  ◌∙◌,
}
use ops_signal.Signal.{Signal, SignalInput, SignalError, is_lifecycle, validate}
use ops_signal.Throttle.{Table, Admission, release}
use ops_signal.Delivery.{DeliveryResult, ProviderOutcome}
use ops_signal.Groups.{Added, joined, opens, full}
use ops_signal.Lifecycle.{lifecycle_plan}
use ops_signal.Client.{
  Client, Setting, Prepared, SinkCall, recorded, noted, completed, prepare, prepare_lifecycle,
  prepare_trigger, settle, hold, hold_on, held, settle_unsent, no_admission, tell,
}
use ops_signal.Client.Sending.{SendReport, Course, carry_out, send_prepared, send, track, reported}
use ops_signal.Delivery.Summary.{summarize}

-- The result of a call to `validate`, with its equation.
validate-cases :
    {M : Type 0} (input : SignalInput M)
    → ((e : SignalError) × (validate input ≡ err e)) ⊎ (validate input ≡ ok tt)
validate-cases input =
    elim (validate input) as (λ r. ((e : SignalError) × (r ≡ err e)) ⊎ (r ≡ ok tt)) [
      | ok _ ↦ inr refl
      | err e ↦ inl (e, refl)
    ]

module _ {M : Type 0} (env : Setting M) where
  settle-no_admission :
      (result : DeliveryResult) (table : Option Table)
      → settle env (no_admission env) result table ≡ table
  unfolding settle release
  settle-no_admission result none = refl
  settle-no_admission result (some table) = ground arith

  sink-held : (a : Added M) (c : Client M) → (held env a c).sink ≡ c.sink
  unfolding held
  sink-held joined c = refl
  sink-held (opens key seq wait) c = refl
  sink-held (full closed) c = refl

  -- Holding a signal tells the sink nothing.
  sink-hold :
      (signal : Signal M) (owns_row : Bool) (grouped : List (ℕ × String)) (c : Client M)
      (admission : Admission)
      → (hold env signal owns_row grouped c admission).0.sink ≡ c.sink
  unfolding hold hold_on
  sink-hold signal owns_row [] c admission = refl
  sink-hold signal owns_row ((i, line) ∷ rest) c admission =
      elim (Option-cases (get_elem? env.routes i)) [
        | inl e ↦ rw (e, hold) (sink-hold signal owns_row rest c admission)
        | inr (route, e) ↦
            rw (e, hold)
              (sink-hold signal owns_row rest (hold_on env signal owns_row route c admission).0
                  (hold_on env signal owns_row route c admission).1
                ∙ sink-held _ _)
      ]

client-reported :
    {M : Type 0} (fault : Option SignalError) (signal : Signal M) (r : Client M × DeliveryResult)
    → (reported fault signal r).0 ≡ r.0
unfolding reported
client-reported (some e) signal (c, result) = refl
client-reported none signal (c, result) = refl

-- Nothing of what routes hold back or collect has changed.
pub record IsUntouched {M : Type 0} (c c' : Client M) : Type 0 where
  pub throttle : c'.throttle ≡ c.throttle
  pub groups : c'.groups ≡ c.groups
  pub spawned : c'.spawned ≡ c.spawned
  pub timers : c'.timers ≡ c.timers

module _ {M : Type 0} (env : Setting M) (now : ℕ) (course : Course) where
  hold-none :
      (signal : Signal M) (owns_row : Bool) (grouped : List (ℕ × String)) (c : Client M)
      (admission : Admission)
      → grouped ≡ []
      → hold env signal owns_row grouped c admission ≡ (c, admission)
  unfolding hold
  hold-none signal owns_row grouped c admission e = rw e refl

  send_prepared-IsUntouched :
      (c : Client M) (p : Prepared M)
      → p.plan.grouped ≡ []
      → p.admission ≡ no_admission env
      → IsUntouched c (send_prepared env now course (c, p)).0
  unfolding send_prepared carry_out settle_unsent hold track
  send_prepared-IsUntouched c p g a =
      let told = tell env (recorded p.signal) c in
      let result = summarize p.plan (track env p course).outcomes course.cut in
      let settled : settle env p.admission result c.throttle ≡ c.throttle =
        rw a (settle-no_admission env result c.throttle) in
      elim (Bool-cases (null p.plan.targets)) [
        | inl e ↦
            rw (e, g) (record { throttle = refl; groups = refl; spawned = refl; timers = refl })
        | inr e ↦
            rw
              (
                e,
                hold-none p.signal false p.plan.grouped told p.admission g,
                client-reported env.complete_fault p.signal,
              )
              (record { throttle = settled; groups = refl; spawned = refl; timers = refl })
      ]

  -- An `acknowledge` or `resolve` leaves the throttle's table, the groups, the groups being sent
  -- and the timers as they were, whatever the routes say and however its delivery ends.
  pub send-IsUntouched :
      (id : ℕ) (input : SignalInput M) (c : Client M)
      → is_lifecycle input.action ≡ true
      → IsUntouched c (send env id now course input c).0
  unfolding send prepare prepare_lifecycle lifecycle_plan
  send-IsUntouched id input c h = elim (validate-cases input) [
    | inl (x, e) ↦
        rw (e, send) (record { throttle = refl; groups = refl; spawned = refl; timers = refl })
    | inr e ↦
        rw (e, h, send)
          (send_prepared-IsUntouched c (prepare_lifecycle env id now input c).1 refl refl)
  ]

told_append :
    {A : Type 0} (ys xs : List A) (r : A) (ns cs : List A)
    → ys ≡ xs ++ r ∷ []
    → (ys ++ ns) ++ cs ≡ xs ++ r ∷ (ns ++ cs)
told_append ys xs r ns cs e =
    append_assoc ys ns cs ∙ ap (λ zs. zs ++ (ns ++ cs)) e ∙ append_assoc xs (r ∷ []) (ns ++ cs)

-- A call on the sink that notes the outcome of a provider for the signal.
abbrev pub Notes : {M : Type 0} → Signal M → SinkCall M → Type 0
Notes signal call = (o : ProviderOutcome) × (call ≡ noted signal o)

-- The sink was told of one signal: that it came in, what its providers did, and how it ended.
pub record Tells {M : Type 0} (signal : Signal M) (result : DeliveryResult) (c c' : Client M)
    : Type 0 where
  pub notes : List (SinkCall M)
  pub each : All (Notes signal) notes
  pub told : c'.sink ≡ c.sink ++ recorded signal ∷ (notes ++ completed signal result ∷ [])

Tells-sink :
    {M : Type 0} (signal : Signal M) (result : DeliveryResult) (c d c' : Client M)
    → c.sink ≡ d.sink
    → Tells signal result c c'
    → Tells signal result d c'
Tells-sink signal result c d c' e t = record {
  notes = t.notes;
  each = t.each;
  told = t.told ∙ ap (λ xs. xs ++ recorded signal ∷ (t.notes ++ completed signal result ∷ [])) e;
}

All-noted :
    {M : Type 0} (signal : Signal M) (os : List ProviderOutcome)
    → All (Notes signal) (map (noted signal) os)
All-noted signal [] = tt
All-noted signal (o ∷ os) = ((o, refl), All-noted signal os)

-- The answer of `send`: the report, or the error of the sink's `complete`, which counts only if
-- there was something to send.
abbrev pub Answers :
    {M : Type 0}
    → Option SignalError
    → Bool
    → Signal M
    → DeliveryResult
    → Result SignalError SendReport
    → Type 0
Answers fault unsent signal result (ok report) =
    (report.result ≡ result)
    × (report.signal_id ≡ signal.id)
    × (report.dedup_key ≡ signal.dedup_key)
    × ((unsent ≡ true) ⊎ (fault ≡ none))
Answers fault unsent signal result (err e) = (unsent ≡ false) × (fault ≡ some e)

Answers-reported :
    {M : Type 0} (fault : Option SignalError) (signal : Signal M) (c : Client M)
    (result : DeliveryResult)
    → Answers fault false signal result (reported fault signal (c, result)).1
unfolding reported
Answers-reported none signal c result = (refl, refl, refl, inr refl)
Answers-reported (some e) signal c result = (refl, refl)

module _ {M : Type 0} (env : Setting M) (now : ℕ) (course : Course) where
  -- What the sink hears, and what `send` answers.
  told-send_prepared :
      (c : Client M) (p : Prepared M)
      → (result : DeliveryResult) × Tells p.signal result c (send_prepared env now course (c, p)).0
        × Answers env.complete_fault
            (null p.plan.targets)
            p.signal
            result
            (send_prepared env now course (c, p)).1
  unfolding send_prepared carry_out settle_unsent track
  told-send_prepared c p = elim (Bool-cases (null p.plan.targets)) [
    | inl e ↦ (
      summarize p.plan [] none,
      rw (e, send_prepared)
          (record {
            notes = [];
            each = tt;
            told = sink-hold env _ _ _ _ _ ∙ append_assoc c.sink _ _;
          }),
      rw (e, send_prepared) (refl, refl, refl, inl refl),
    )
    | inr e ↦ (
      summarize p.plan (track env p course).outcomes course.cut,
      rw (e, client-reported env.complete_fault p.signal)
          (record {
            notes = map (noted p.signal) (track env p course).written;
            each = All-noted _ _;
            told = told_append _ c.sink _ _ _ (
                sink-hold env p.signal false p.plan.grouped (tell env (recorded p.signal) c)
                  p.admission);
          }),
      rw e (Answers-reported env.complete_fault p.signal _ _),
    )
  ]

  sink-prepare :
      (id : ℕ) (input : SignalInput M) (c : Client M) → (prepare env id now input c).0.sink ≡ c.sink
  unfolding prepare prepare_trigger prepare_lifecycle
  sink-prepare id input c = elim (Bool-cases (is_lifecycle input.action)) [
    | inl e ↦ rw (e, prepare) refl
    | inr e ↦ rw (e, prepare) refl
  ]

  -- An input that `validate` refuses, and only such a one, changes nothing and is answered with the
  -- error of `validate`. For any other, the sink is told of one signal, the one that `prepare`
  -- makes of it: first that it came in, then outcomes of its providers, and last of all how it
  -- ended. If its plan has targets and `complete` fails, `send` returns the error of `complete`. In
  -- all other cases it reports the result that the sink was told, with the signal's id and dedup
  -- key.
  pub send_told :
      (id : ℕ) (input : SignalInput M) (c : Client M)
      → ((e : SignalError) × (validate input ≡ err e)
          × (send env id now course input c ≡ (c, err e)))
        ⊎ ((validate input ≡ ok tt)
            × ((result : DeliveryResult) × Tells
                  (prepare env id now input c).1.signal
                  result
                  c
                  (send env id now course input c).0
                × Answers env.complete_fault
                    (null (prepare env id now input c).1.plan.targets)
                    (prepare env id now input c).1.signal
                    result
                    (send env id now course input c).1))
  unfolding send
  send_told id input c = elim (validate-cases input) [
    | inl (x, e) ↦ inl (x, e, rw (e, send) refl)
    | inr e ↦
        let p = (prepare env id now input c) in
        let h = told-send_prepared p.0 p.1 in
        inr (
          e,
          (
            h.0,
            rw (e, send) (Tells-sink p.1.signal h.0 p.0 c _ (sink-prepare id input c) h.1),
            rw (e, send) h.2,
          ),
        )
  ]
