-- ===== src/Examples/Throttling.antt =====
-- crates/core/src/throttle.rs on concrete tables.
use ops_signal.Prelude.{
  ℕ, String, false, some, none, List, [], ◌∷◌, ◌≡◌, refl, err, arith, format, decimal,
}
use ops_signal.Window
use ops_signal.Throttle.{count_since, Row, try_admit, release, ago}
use ops_signal.Throttle.History.{Rules, admitted, permitted}
use ops_signal.Throttle.Forgets.{Remembers, admitted-eq-permitted}
use ops_signal.Throttle.Spacing.{AllApart, AllCapped, admitted-AllApart, admitted-AllCapped}
use ops_signal.Throttle.Release.{after, last_time, release-try_admit}

abbrev at : String → ℕ → Row
at key secs = record { route = "r"; key = key; sent_at = secs }

-- `dedup: 10m` and at most two sends per minute.
abbrev rules : String → Rules
rules route = record {
  dedup = some (record { secs = 600 });
  rate = some (record { max = 2; per = record { secs = 60 } });
}

abbrev sends : List Row
sends =
    at "a" 0 ∷ at "a" 120000 ∷ at "b" 130000 ∷ at "c" 140000 ∷ at "d" 150000 ∷ at "a" 600000 ∷ []

let_through :
    admitted rules [] sends ≡ at "a" 0 ∷ at "b" 130000 ∷ at "c" 140000 ∷ at "a" 600000 ∷ []
unfolding admitted try_admit
let_through = refl

duplicate_reason :
    (try_admit (at "a" 0 ∷ []) (at "a" 120000) (rules "r").dedup none).1
    ≡ err "duplicate of a signal sent 2m ago (dedup 10m)"
unfolding try_admit ago format decimal Window.show
duplicate_reason = refl

limit_reason :
    (try_admit (at "a" 0 ∷ at "b" 10000 ∷ []) (at "c" 20000) none (rules "r").rate).1
    ≡ err "rate limit of 2 per 1m reached"
unfolding try_admit ago format decimal Window.show
limit_reason = refl

admitted-eq-permitted_example : admitted rules [] sends ≡ permitted rules [] sends
admitted-eq-permitted_example = admitted-eq-permitted rules sends (omega arith)

admitted-AllApart_example : AllApart rules (admitted rules [] sends)
admitted-AllApart_example = admitted-AllApart rules sends (omega arith)

admitted-AllCapped_example : AllCapped rules [] (admitted rules [] sends)
admitted-AllCapped_example = admitted-AllCapped rules sends (omega arith)

-- While the first send is being delivered, another comes on its route and is let through, its
-- repeat is turned down, and the first one is then released.
release-try_admit_example :
    Remembers rules
      (last_time rules 5 (at "c" 6 ∷ at "a" 7 ∷ []))
      (release
        (λ r. false)
        (after rules
          (try_admit [] (at "a" 5) (rules "r").dedup (rules "r").rate).0
          (at "c" 6 ∷ at "a" 7 ∷ []))
        (at "a" 5 ∷ []))
      (admitted rules
        (try_admit [] (at "a" 5) (rules "r").dedup (rules "r").rate).0
        (at "c" 6 ∷ at "a" 7 ∷ []))
unfolding count_since
release-try_admit_example =
    release-try_admit rules [] (at "a" 5) (at "c" 6 ∷ at "a" 7 ∷ []) refl (omega arith)
      (omega arith)
