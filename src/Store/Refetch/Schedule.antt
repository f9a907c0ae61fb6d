-- ===== src/Store/Refetch/Schedule.antt =====
-- `NextRefetch`, `refetchableURL` and the row that a capture seeds. The stored times are texts that
-- SQLite compares by julianday; the model compares the times that they stand for.
pub mod Bound
use shard_lure.Common.{
  ℕ, ◌+◌, ◌*◌, Bool, true, false, ◌&&◌, ◌||◌, not, Option, none, some, Bytes, codes, has_prefix,
  to_lower, length, is_nil, ltb, leb, if◌then◌else◌,
}
use shard_lure.Common.Time.{Time, second, hour, day, sub, at_least}

pub data State : Type 0 where
  active offline done : State

abbrev pub is_done : State → Bool
is_done done = true
is_done _ = false

abbrev pub refetch_max_age : ℕ
refetch_max_age = 10 * day

-- The check of `NextRefetch` behind the switch, and the zero time with `done`.
abbrev pub within_age : Time → Time → State → Time × State
within_age first_seen next state =
    if at_least (sub next first_seen) (10 * day) then (0, done) else (next, state)

unfoldable pub next_refetch : Time → Time → ℕ → Time × State
next_refetch first_seen now failures =
    let age = sub now first_seen in
    if at_least age (10 * day)
    then (0, done)
    else if leb 6 failures
    then within_age first_seen (now + 24 * hour) offline
    else if not (at_least age (24 * hour))
    then within_age first_seen (now + hour) active
    else if not (at_least age (7 * day))
    then within_age first_seen (now + 6 * hour) active
    else (0, done)

unfoldable pub refetchable_url : Bytes → Bool
refetchable_url u =
    let l = to_lower u in
    (has_prefix l (codes "http://") && ltb (length (codes "http://")) (length l))
    || (has_prefix l (codes "https://") && ltb (length (codes "https://")) (length l))
