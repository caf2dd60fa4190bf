-- ===== src/Delivery/Retry.antt =====
-- The attempts on one provider (`deliver_chain` in crates/core/src/lib.rs).
use ops_signal.Prelude.{
  ℕ, zero, suc, ◌+◌, ◌<◌, ◌≤◌, String, Option, none, some, ◌≡◌, refl, Result, ok, err, arith, subst,
}
use native.Mathlib.Decide.{dec_lt}
use ops_signal.Delivery.{Provider}
use ops_signal.Delivery.Chain.{max_retry_attempts, Attempted, sent_at, gave_up, retry}

-- The attempts from one to another, exclusive, all failed.
abbrev pub AllFailed : Provider → Option String → ℕ → ℕ → Type 0
AllFailed provider prior first next =
    (n : ℕ) → first ≤ n → n < next → (e : String) × (provider.send_with_ref prior n ≡ err e)

-- What the attempts say of a provider, in the order they are made.
abbrev pub Explains : Provider → Option String → ℕ → ℕ → Attempted → Type 0
Explains provider prior first end (sent_at n ref) =
    (first ≤ n)
    × (n < end)
    × (provider.send_with_ref prior n ≡ ok ref)
    × AllFailed provider prior first n
Explains provider prior first end (gave_up e) = AllFailed provider prior first end

AllFailed-suc :
    (provider : Provider) (prior : Option String) (first next : ℕ) (e : String)
    → provider.send_with_ref prior first ≡ err e
    → AllFailed provider prior (first + 1) next
    → AllFailed provider prior first next
AllFailed-suc provider prior first next e f h n l u = elim (dec_lt first n) [
  | yes p ↦ h n (omega arith) u
  | no p ↦ (e, subst (λ k. provider.send_with_ref prior k ≡ err e) (omega arith) f)
]

retry-Explains :
    (provider : Provider) (prior : Option String) (first left : ℕ) (last_error : Option String)
    → Explains provider prior first (first + left) (retry provider prior first left last_error)
unfolding retry
retry-Explains provider prior first zero last_error = λ n l u. absurd (omega arith)
retry-Explains provider prior first (suc left) last_error =
    go (provider.send_with_ref prior first) refl (retry-Explains provider prior (first + 1) left)
  where
    shift :
        (e : String) (a : Attempted)
        → provider.send_with_ref prior first ≡ err e
        → Explains provider prior (first + 1) (first + 1 + left) a
        → Explains provider prior first (first + suc left) a
    shift e (sent_at n ref) f h =
        (omega arith, omega arith, h.2, AllFailed-suc provider prior first n e f h.3)
    shift e (gave_up x) f h =
        AllFailed-suc provider prior first (first + suc left) e f (λ n l u. h n l (omega arith))

    go :
        (r : Result String (Option String))
        → provider.send_with_ref prior first ≡ r
        → ((last : Option String)
            → Explains provider prior
                (first + 1)
                (first + 1 + left)
                (retry provider prior (first + 1) left last))
        → Explains provider prior first (first + suc left) (elim r [
          | ok alert_ref ↦ sent_at first alert_ref
          | err e ↦ retry provider prior (first + 1) left (some e)
        ])
    go (ok ref) e ih = (omega arith, omega arith, e, λ n l u. absurd (omega arith))
    go (err x) e ih = shift x _ e (ih (some x))

-- The attempts on a provider end well at the first attempt that it accepts, one of the three, with
-- the reference it returned; they are given up exactly if it fails all three, with the error of
-- the last.
pub retry_first :
    (provider : Provider) (prior : Option String)
    → Explains provider prior 1
        (suc max_retry_attempts)
        (retry provider prior 1 max_retry_attempts none)
      × ((e : String)
          → AllFailed provider prior 1 (suc max_retry_attempts)
          → provider.send_with_ref prior 3 ≡ err e
          → retry provider prior 1 max_retry_attempts none ≡ gave_up (some e))
unfolding retry
retry_first provider prior = (
  retry-Explains provider prior 1 3 none,
  λ e all last.
      let (a, p) = all 1 (omega arith) (omega arith) in
      let (b, q) = all 2 (omega arith) (omega arith) in rw (p, q, last),
)
