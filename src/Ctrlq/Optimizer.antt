-- ===== src/Ctrlq/Optimizer.antt =====
-- internal/ctrlq/optimizer.go. Rates count billionths of a request per second: half a rate is
-- rounded down to such a unit, and every other value is exact.
pub mod Bounds
use Prim.Native.Char.{Char, code}
use Prim.Native.Nat.{min, max}
use Prim.Native.String
use tobey.Common.{
  ℕ, String, ◌+◌, ◌-◌, ◌*◌, ◌/◌, ◌^◌, ◌≡◌, ◌≢◌, refl, Bool, true, false, not, ◌&&◌, ◌||◌, Option,
  none, some, leb, ltb, if◌then◌else◌, ◌==◌, nat_eq, string_eq,
}
use tobey.Failure.{Error, is_deadline_exceeded}
use tobey.Headers.{Header, get}
use tobey.Ctrlq.Controlled.{second}
use tobey.Ctrlq.Limiter.{min_host_rps, max_host_rps}

-- What a text of decimal digits stands for, read from the left; `none` for any other text.
digits_from : ℕ → String → Option ℕ
digits_from acc String.[] = some acc
digits_from acc (String.◌∷◌ c s) =
    let rest = digits_from (acc * 10 + (code c - b'0')) s in
    if leb b'0' (code c) && leb (code c) b'9' then rest else none

unsigned : String → Option ℕ
unfolding digits_from
unsigned s = if s == "" then none else digits_from 0 s

or_zero : Option ℕ → ℕ
or_zero none = 0
or_zero (some n) = n

-- strconv.Atoi with its error ignored: zero on a syntax error, the largest int64 on an overflow.
-- A negative number is read as zero, which is enough below, where the larger of it and one counts.
unfoldable pub atoi_or_zero : String → ℕ
unfolding unsigned or_zero
atoi_or_zero String.[] = 0
atoi_or_zero (String.◌∷◌ c s) =
    if code c == b'-'
    then 0
    else min (2 ^ 63 - 1)
        (or_zero (if code c == b'+' then unsigned s else unsigned (String.◌∷◌ c s)))

-- int(f): the whole requests per second.
abbrev pub whole : ℕ → ℕ
whole r = r / second

-- MaxHostRPS * (1 - latency) + MinHostRPS * latency, for a latency in nanoseconds, up to a second.
abbrev pub between_bounds : ℕ → ℕ
between_bounds latency =
    max_host_rps / second * (second - latency) + min_host_rps / second * latency

abbrev pub differs : ℕ → ℕ → Bool
differs a b = not (a == b)

abbrev pub change_to : ℕ → ℕ → Bool × ℕ
change_to cur desired = (differs (whole desired) (whole cur), desired)

-- Whether the limit should change, and to what.
unfoldable pub new_rate_limit_by_headers : ℕ → Header → Bool × ℕ
unfolding atoi_or_zero get
new_rate_limit_by_headers cur hdr =
    let v = get "X-Ratelimit-Limit" hdr in
    if v == ""
    then (false, 0)
    else change_to cur (max (atoi_or_zero v / 60 / 60 * second) min_host_rps)

abbrev timed_out : Option Error → Bool
timed_out none = false
timed_out (some e) = is_deadline_exceeded e

unfoldable pub new_rate_limit_by_latency : ℕ → ℕ → Option Error → ℕ → Bool × ℕ
new_rate_limit_by_latency cur status_code err d =
    if status_code == 429 || status_code == 503
    then (false, 0)
    else if status_code == 500 || timed_out err
    then change_to cur (if ltb (cur / 2) min_host_rps then min_host_rps else cur / 2)
    else if d == 0
    then (false, 0)
    else change_to cur (between_bounds (min second d))
