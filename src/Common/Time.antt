-- ===== src/Common/Time.antt =====
-- `time.Time` as nanoseconds since Go's zero time, which is 0, and the saturating `Sub`.
use Prim.Native.Nat.{ℕ, ◌+◌, ◌-◌, ◌*◌, ◌^◌, ◌≤◌, ◌<◌, min}
use mathlib.Core.Path.{◌≡◌}
use mathlib.Core.Bool.{Bool, false}
use native.Mathlib.Omega.{arith}
use shard_lure.Common.Tests.{ltb, leb, ◌==◌, if◌then◌else◌}
use shard_lure.Common.Int.{ℤ, pos, negsuc}

abbrev pub Time : Type 0
Time = ℕ

abbrev pub is_zero : Time → Bool
is_zero t = t == 0

abbrev pub max_duration : ℕ
max_duration = 2 ^ 63 - 1

abbrev pub second : ℕ
second = 1_000_000_000

abbrev pub hour : ℕ
hour = 3600 * second

abbrev pub day : ℕ
day = 24 * hour

-- `t.Sub(u)`, a `Duration`, which saturates.
abbrev pub sub : Time → Time → ℤ
sub t u =
    if leb u t then pos (min (t - u) max_duration) else negsuc (min (u - t) (max_duration + 1) - 1)

-- `t.After(u)`
abbrev pub after : Time → Time → Bool
after t u = ltb u t

-- `d > n` for a duration that is not negative
abbrev pub longer_than : ℤ → ℕ → Bool
longer_than (pos d) n = ltb n d
longer_than (negsuc d) n = false

-- `d >= n` for `n` that is not negative
abbrev pub at_least : ℤ → ℕ → Bool
at_least (pos d) n = leb n d
at_least (negsuc d) n = false

-- An observation is too old exactly when it lies more than `n` before `t`.
pub longer_than-sub : (t u n : ℕ) → n < max_duration → longer_than (sub t u) n ≡ ltb (u + n) t
longer_than-sub t u n h = ground arith

-- It is at least `n` old exactly when it lies at `n` or more before `t`.
pub at_least-sub : (t u n : ℕ) → 0 < n → n ≤ max_duration → at_least (sub t u) n ≡ leb (u + n) t
at_least-sub t u n h k = ground arith
