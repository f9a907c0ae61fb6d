-- ===== src/Store/Refetch/Checks.antt =====
-- How often one URL is fetched again, through every operation on the schedule.
mod Rows
mod Room
mod Tables
use mathlib.Core.List.{Memᴰ}
use shard_lure.Common.{
  ℕ, zero, suc, ◌+◌, ◌-◌, ◌*◌, ◌≤◌, ◌<◌, ◌≡◌, ◌≢◌, refl, sym, ap, subst, inl, inr, Bool, true,
  false, ◌&&◌, ◌||◌, not, is_nil, is_some, List, [], ◌∷◌, ◌++◌, Option, none, some, Bytes, eqb,
  eqb_refl, eq_of_eqb, has_key, All, All-map, ℤ, is_positive, to_ℕ, if◌then◌else◌, Bool-cases,
  arith,
}
use shard_lure.Common.Time.{Time, second, day}
use shard_lure.Store.Refetch.Schedule.{
  State, active, offline, done, is_done, refetch_max_age, refetchable_url, next_refetch,
}
use shard_lure.Store.Refetch.Schedule.Bound.{
  IsPlan, next_refetch-IsPlan, plan_ahead, most, most_mono, most_pos, most_step,
}
use shard_lure.Store.Refetch.Table.{Row, Artifact, update_where, find_row, urls, Unique}
use shard_lure.Store.Refetch.Claim.{
  RefetchJob, seed_refetch, settle, is_overdue, is_due, refetch_settle_chunk, most_overdue,
  may_lease, lease_one, claim_refetch,
}
use shard_lure.Store.Refetch.Claim.Chosen.{most_overdue-IsChosen}
use shard_lure.Store.Refetch.Complete.{
  RefetchOutcome, refetch_release_delay, is_current, record_outcome, capped_state, complete_row,
  complete_found, complete_leased, complete_refetch, release_leased, release_refetch, is_leased_to,
  advance, is_job,
}
use shard_lure.Store.Refetch.Complete.Capped.{no_row}
use shard_lure.Store.Refetch.Leases.Rows.{urls-settle}
use shard_lure.Store.Refetch.Purge.{purge_chunk, is_purgeable, purge_some}
use shard_lure.Store.Refetch.Keys
use shard_lure.Store.Refetch.Keys.{Reachable, Reachable-Unique}
use shard_lure.Store.Refetch.Checks.Rows.{update-All, All-mem, same_row, found_row, purge-All}
use shard_lure.Store.Refetch.Checks.Room.{
  IsSpaced, later-IsSpaced, seeded-IsSpaced, lease-IsSpaced, advance-IsSpaced, current_lem,
  released-IsSpaced,
}
use shard_lure.Store.Refetch.Checks.Tables.{
  seed-IsSpaced, claim-IsSpaced, complete-IsSpaced, release-IsSpaced,
}

-- The schedules that the operations make of the empty one, with the time of the last: any operations
-- with any arguments, on a clock that is not set back.
pub data Timeline : Time → List Row → Type 0 where
  starts : (t : Time) → Timeline t []
  seeds :
      {t : Time} {rows : List Row} (url : Bytes) (first_seen now : Time) (sha : Bytes)
      → Timeline t rows
      → t ≤ now
      → first_seen ≤ now
      → Timeline now (seed_refetch rows url first_seen now sha)
  claims :
      {t : Time} {rows : List Row} (now : Time) (lease : ℤ)
      → Timeline t rows
      → t ≤ now
      → Timeline now (claim_refetch rows now lease).1
  completes :
      {t : Time} {rows : List Row} (arts : List Artifact) (job : RefetchJob) (now : Time)
      (out : RefetchOutcome)
      → Timeline t rows
      → t ≤ now
      → Timeline now (complete_refetch rows arts job now out).1
  releases :
      {t : Time} {rows : List Row} (job : RefetchJob) (now : Time)
      → Timeline t rows
      → t ≤ now
      → Timeline now (release_refetch rows job now).1
  purges :
      {t : Time} {rows : List Row} (cutoff now : Time)
      → Timeline t rows
      → t ≤ now
      → Timeline now (purge_some (is_purgeable cutoff now) purge_chunk rows).1

Timeline-Reachable : {t : Time} {rows : List Row} → Timeline t rows → Reachable rows
Timeline-Reachable (starts t) = Reachable.empty
Timeline-Reachable (seeds url first_seen now sha r le p) =
    Reachable.onward (Timeline-Reachable r) (Keys.Step.seeds url first_seen now sha)
Timeline-Reachable (claims now lease r le) =
    Reachable.onward (Timeline-Reachable r) (Keys.Step.claims now lease)
Timeline-Reachable (completes arts job now out r le) =
    Reachable.onward (Timeline-Reachable r) (Keys.Step.completes arts job now out)
Timeline-Reachable (releases job now r le) =
    Reachable.onward (Timeline-Reachable r) (Keys.Step.releases job now)
Timeline-Reachable (purges cutoff now r le) =
    Reachable.onward (Timeline-Reachable r) (Keys.Step.purges cutoff now)

later_rows :
    (t now : Time) (rows : List Row) → t ≤ now → All (IsSpaced t) rows → All (IsSpaced now) rows
later_rows t now rows h k = All-map _ _ rows (λ r. later-IsSpaced t now r h) k

Timeline-IsSpaced : {t : Time} {rows : List Row} → Timeline t rows → All (IsSpaced t) rows
Timeline-IsSpaced (starts t) = tt
Timeline-IsSpaced (seeds {t} {rows} url first_seen now sha r le p) =
    seed-IsSpaced rows url first_seen now sha p (later_rows t now rows le (Timeline-IsSpaced r))
Timeline-IsSpaced (claims {t} {rows} now lease r le) =
    claim-IsSpaced rows now lease (Reachable-Unique (Timeline-Reachable r))
      (later_rows t now rows le (Timeline-IsSpaced r))
Timeline-IsSpaced (completes {t} {rows} arts job now out r le) =
    complete-IsSpaced rows arts job now out (Reachable-Unique (Timeline-Reachable r))
      (later_rows t now rows le (Timeline-IsSpaced r))
Timeline-IsSpaced (releases {t} {rows} job now r le) =
    release-IsSpaced rows job now (later_rows t now rows le (Timeline-IsSpaced r))
Timeline-IsSpaced (purges {t} {rows} cutoff now r le) =
    purge-All (IsSpaced now) (is_purgeable cutoff now) purge_chunk rows
      (later_rows t now rows le (Timeline-IsSpaced r))

-- Whatever sequence of seedings, claims, completions, releases and purges made the schedule, on a
-- clock that is not set back and with no URL seeded before it was first seen, every row of it counts
-- at most 51 completed checks, failed ones included. Fetches whose lease lapsed or that were given
-- back are not counted by the code, nor is what a row counted that a purge has removed.
pub checks_bound : {t : Time} {rows : List Row} → Timeline t rows → All (λ r. r.checks ≤ 51) rows
checks_bound {t} {rows} r = All-map _ _ rows (λ q k. k.0) (Timeline-IsSpaced r)
