-- ===== src/Store/Refetch/Schedule/Bound.antt =====
-- The plans of `NextRefetch`, and how many checks fit between them.
use shard_lure.Common.{
  ℕ, ◌+◌, ◌-◌, ◌*◌, ◌/◌, ◌≤◌, ◌<◌, ◌≡◌, ◌≢◌, refl, not, ltb, leb, if◌then◌else◌, arith,
}
use shard_lure.Common.Time.{Time, hour, day, at_least, sub, at_least-sub}
use shard_lure.Store.Refetch.Schedule.{State, active, offline, done, refetch_max_age, next_refetch}

-- `next_refetch` with its durations resolved to times.
plan : ℕ → ℕ → State → Time × State
plan first next state = if leb (first + 10 * day) next then (0, done) else (next, state)

plain : ℕ → ℕ → ℕ → Time × State
unfolding plan
plain first now failures =
    if leb (first + 10 * day) now
    then (0, done)
    else if leb 6 failures
    then plan first (now + 24 * hour) offline
    else if ltb now (first + 24 * hour)
    then plan first (now + hour) active
    else if ltb now (first + 7 * day)
    then plan first (now + 6 * hour) active
    else (0, done)

young :
    (now first n : ℕ)
    → 0 < n
    → n ≤ 10 * day
    → not (at_least (sub now first) n) ≡ ltb now (first + n)
young now first n h k = rw (at_least-sub now first n h (omega arith)) (ground arith)

old : (now first : ℕ) → at_least (sub now first) (10 * day) ≡ leb (first + 10 * day) now
old now first = at_least-sub now first (10 * day) (omega arith) (omega arith)

next_refetch-plain :
    (first now failures : ℕ) → next_refetch first now failures ≡ plain first now failures
unfolding next_refetch plain
next_refetch-plain first now failures = rw (
  old now first,
  old (now + 24 * hour) first,
  old (now + hour) first,
  old (now + 6 * hour) first,
  young now first (24 * hour) (omega arith) (omega arith),
  young now first (7 * day) (omega arith) (omega arith),
)

-- What a plan promises: an active URL has failed less than six times in a row and its next check
-- lies an hour ahead at least, an offline one has failed six times or more and is checked the next
-- day, both before the tenth day; a finished one has been observed for seven days at least.
abbrev pub IsPlan : ℕ → ℕ → ℕ → Time × State → Type 0
IsPlan first now failures (next, active) =
    (failures < 6) × (now + hour ≤ next) × (next < first + refetch_max_age)
IsPlan first now failures (next, offline) =
    (6 ≤ failures) × (next ≡ now + day) × (next < first + refetch_max_age)
IsPlan first now failures (next, done) = (next ≡ 0) × (first + 7 * day ≤ now)

-- Every plan of `next_refetch` keeps its promise: the bounds on the failures, on the next check and
-- on the age at which the observation ends, for each of the three states.
pub next_refetch-IsPlan :
    (first now failures : ℕ) → IsPlan first now failures (next_refetch first now failures)
unfolding plain plan
next_refetch-IsPlan first now failures = rw (next_refetch-plain first now failures) (ground arith)

pub plan_ahead :
    (first now : ℕ) (p : Time × State) (failures : ℕ)
    → p.1 ≢ done
    → IsPlan first now failures p
    → (now ≤ p.0) × (p.0 < first + refetch_max_age)
plan_ahead first now (next, active) failures h (f, a, b) = (omega (arith, a), b)
plan_ahead first now (next, offline) failures h (f, a, b) = (omega (arith, a), b)
plan_ahead first now (next, done) failures h p = absurd (h refl)

-- How many checks still fit from the age `a` on: hourly, then every six hours, then daily.
unfoldable pub most : ℕ → ℕ
most a =
    if ltb a (24 * hour)
    then (24 * hour - a + (hour - 1)) / hour + 27
    else if ltb a (7 * day)
    then (7 * day - a + (6 * hour - 1)) / (6 * hour) + 3
    else (10 * day - a + (24 * hour - 1)) / (24 * hour)

pub most_mono : (a b : ℕ) → a ≤ b → most b ≤ most a
unfolding most
most_mono a b h = ground arith

pub most_pos : (a : ℕ) → a < 10 * day → 1 ≤ most a
unfolding most
most_pos a h = ground arith

most_hourly : (a : ℕ) → a < 24 * hour → most (a + hour) + 1 ≤ most a
unfolding most
most_hourly a h = ground arith

most_six_hourly : (a : ℕ) → 24 * hour ≤ a → a < 7 * day → most (a + 6 * hour) + 1 ≤ most a
unfolding most
most_six_hourly a h k = ground arith

most_daily : (a : ℕ) → a + 24 * hour < 10 * day → most (a + 24 * hour) + 1 ≤ most a
unfolding most
most_daily a h = ground arith

-- The same for the time of the next check, where the age is a difference.
most_later :
    (first now d : ℕ)
    → first ≤ now
    → most (now - first + d) + 1 ≤ most (now - first)
    → most (now + d - first) + 1 ≤ most (now - first)
most_later first now d h k = let e : now + d - first ≡ now - first + d = omega arith in rw e k

pub most_step :
    (first now failures : ℕ)
    → first ≤ now
    → (next_refetch first now failures).1 ≢ done
    → most ((next_refetch first now failures).0 - first) + 1 ≤ most (now - first)
unfolding plain
most_step first now failures h = rw (next_refetch-plain first now failures) (λ n. ground (
  arith,
  n,
  most_later first now hour h,
  most_later first now (6 * hour) h,
  most_later first now (24 * hour) h,
  most_hourly (now - first),
  most_six_hourly (now - first),
  most_daily (now - first),
))
