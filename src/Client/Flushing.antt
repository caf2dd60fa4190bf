-- ===== src/Client/Flushing.antt =====
-- `SignalClient::flush` of crates/core/src/lib.rs: the open groups are sent, and then it waits.
use ops_signal.Prelude.{
  ℕ, ◌+◌, Bool, false, Option, none, some, List, [], ◌≡◌, refl, eqb, length, ◌≤◌, arith,
}
use ops_signal.InFlight.{InFlight, Phase, testing, asleep, returned, Move, run_moves, wait}
use ops_signal.InFlight.Waits.{IsSound, tests, sleeps, idle, late, run_moves-Sound}
use ops_signal.Groups.{take_all}
use ops_signal.Client.{Client}
use ops_signal.Client.Sending.{spawn_groups}

-- What a wait that is over answers.
abbrev pub is_flushed : Phase → Option Bool
is_flushed testing = none
is_flushed (asleep end) = none
is_flushed (returned n) = some (eqb n 0)

abbrev pub flushed : Option InFlight → Option Bool
flushed none = none
flushed (some s) = is_flushed s.phase

-- `flush`, given the moves of the threads while it waits; `none` if it has not returned by then.
unfoldable pub flush : {M : Type 0} → ℕ → ℕ → List Move → Client M → Client M × Option Bool
flush now timeout moves c =
    let c' = spawn_groups c in
    (c', flushed (run_moves moves (wait c'.groups.in_flight now timeout)))

late-phase :
    (count now deadline : ℕ) (p : Phase)
    → IsSound count now deadline p
    → is_flushed p ≡ some false
    → deadline ≤ now
late-phase count now deadline testing tests h = ground arith
late-phase count now deadline (asleep end) (sleeps k u) h = ground arith
late-phase count now deadline (returned n) idle h = ground arith
late-phase count now deadline (returned n) (late k) h = k

late-flushed :
    (o : Option InFlight)
    → flushed o ≡ some false
    → (s : InFlight) × (o ≡ some s) × (is_flushed s.phase ≡ some false)
late-flushed none h = ground arith
late-flushed (some s) h = (s, refl, h)

-- `flush` leaves no group open, and it says that deliveries are unfinished only when its time is
-- over.
pub flush_late :
    {M : Type 0} (now timeout : ℕ) (moves : List Move) (c : Client M)
    → (flush now timeout moves c).1 ≡ some false
    → ((flush now timeout moves c).0.groups.entries ≡ [])
      × ((s : InFlight) × (run_moves moves
              (wait (c.groups.in_flight + length c.groups.entries) now timeout)
            ≡ some s)
          × (s.deadline ≤ s.now))
unfolding flush spawn_groups take_all wait
flush_late now timeout moves c h =
    let (s, r, k) = late-flushed _ h in
    (
      refl,
      (s, r, late-phase s.count s.now s.deadline s.phase (run_moves-Sound moves _ s tests r) k),
    )
