-- ===== src/Window.antt =====
-- `Window` of crates/core/src/routing.rs: a length of time as a number and a unit. Every window is
-- made by `Duration::from_secs`, so it is its number of seconds, a `u64`.
use ops_signal.Prelude.{
  ℕ, ◌*◌, ◌/◌, ◌%◌, ◌^◌, min, ◌-◌, String, Bool, ◌&&◌, [], ◌∷◌, ◌==◌, ltb, eqb, trim, decimal,
  is_ascii_digit, value_from, is_empty, format, Result, ok, err, if◌then◌else◌,
}

-- `Window`.
pub record Window : Type 0 where
  pub secs : ℕ

abbrev pub u64_max : ℕ
u64_max = 2 ^ 64 - 1

-- `u64::saturating_mul`.
abbrev pub saturating_mul : ℕ → ℕ → ℕ
saturating_mul a b = min (a * b) u64_max

-- `s.split_at(split)` at the first character that is no ASCII digit.
unfoldable pub split_digits : String → String × String
split_digits String.[] = ("", "")
split_digits (String.◌∷◌ c s) =
    let (num, unit) = split_digits s in
    if is_ascii_digit c then (String.◌∷◌ c num, unit) else ("", String.◌∷◌ c s)

-- What makes a text no window.
pub data WindowError : Type 0 where
  invalid_duration : String → WindowError
  invalid_unit : String → String → WindowError

-- The `match unit.trim()`: the seconds in one unit.
unfoldable pub unit_secs : String → String → Result WindowError ℕ
unit_secs s unit =
    if unit == ""
    then ok 1
    else if unit == "s"
    then ok 1
    else if unit == "m"
    then ok 60
    else if unit == "h"
    then ok 3600
    else if unit == "d"
    then ok 86400
    else err (invalid_unit unit s)

-- `num.parse::<u64>()` on a text of digits: refused if empty or too large.
unfoldable pub parse_u64 : String → String → Result WindowError ℕ
unfolding value_from
parse_u64 s num =
    if is_empty num
    then err (invalid_duration s)
    else if ltb u64_max (value_from 0 num)
    then err (invalid_duration s)
    else ok (value_from 0 num)

times : Result WindowError ℕ → Result WindowError ℕ → Result WindowError Window
times (err e) unit = err e
times (ok n) (err e) = err e
times (ok n) (ok secs) = ok (record { secs = saturating_mul n secs })

-- `impl FromStr for Window`.
unfoldable pub parse : String → Result WindowError Window
unfolding trim split_digits unit_secs parse_u64 times
parse text =
    let s = trim text in
    let (num, unit) = split_digits s in times (parse_u64 s num) (unit_secs s (trim unit))

is_multiple_of : ℕ → ℕ → Bool
is_multiple_of n size = ltb 0 n && eqb (n % size) 0

-- `impl Display for Window`: the largest unit that divides the seconds.
unfoldable pub show : Window → String
unfolding is_multiple_of decimal
show w =
    if is_multiple_of w.secs 86400
    then format (decimal (w.secs / 86400) ∷ "d" ∷ [])
    else if is_multiple_of w.secs 3600
    then format (decimal (w.secs / 3600) ∷ "h" ∷ [])
    else if is_multiple_of w.secs 60
    then format (decimal (w.secs / 60) ∷ "m" ∷ [])
    else format (decimal w.secs ∷ "s" ∷ [])
