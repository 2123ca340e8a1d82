-- ===== src/Time.antt =====
-- Go's `time.Time` as nanoseconds since the Unix epoch, with the conversions of
-- internal/store/sqlite.go, whose columns count whole seconds.
use ribat.Base.{
  ℕ, suc, ◌-◌, ◌*◌, ◌/◌, ◌≡◌, ℤ, pos, negsuc, ◌+ℤ◌, ◌-ℤ◌, ◌≤ℤ◌, ◌<ℤ◌, clamp64, arith, Option, none,
  some,
}

abbrev pub Time : Type 0
Time = ℤ

abbrev pub second : ℕ
second = 1_000_000_000

-- `t.UTC().Unix()`: the whole seconds, rounded towards the past.
unfoldable pub unix : Time → ℤ
unix (pos n) = pos (n / second)
unix (negsuc n) = negsuc (n / second)

-- `time.Unix(s, 0).UTC()`.
unfoldable pub from_unix : ℤ → Time
from_unix (pos s) = pos (s * second)
from_unix (negsuc s) = negsuc (suc s * second - 1)

unfoldable pub nullable_unix : Option Time → Option ℤ
unfolding unix
nullable_unix none = none
nullable_unix (some t) = some (unix t)

unfoldable pub nullable_time : Option ℤ → Option Time
unfolding from_unix
nullable_time none = none
nullable_time (some s) = some (from_unix s)

-- `t.Add(d)` and `t.Sub(u)`.
unfoldable pub add_time : Time → ℤ → Time
add_time t d = t +ℤ d

unfoldable pub sub_time : Time → Time → ℤ
sub_time t u = clamp64 (t -ℤ u)

pub unix-from_unix : (s : ℤ) → unix (from_unix s) ≡ s
unfolding unix from_unix
unix-from_unix (pos n) = ground arith
unix-from_unix (negsuc n) = ground arith

-- What the store gives back is not later than what was put in, and less than a second earlier.
pub from_unix-unix-le :
    (t : Time) → (from_unix (unix t) ≤ℤ t) × (t <ℤ from_unix (unix t) +ℤ pos second)
unfolding unix from_unix ◌+ℤ◌
from_unix-unix-le (pos n) = ground arith
from_unix-unix-le (negsuc n) = ground arith
