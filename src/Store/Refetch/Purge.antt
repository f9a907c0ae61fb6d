-- ===== src/Store/Refetch/Purge.antt =====
-- `purgeRefetchSchedule` of internal/store/refetch.go.
pub mod Kept
use shard_lure.Common.{
  ℕ, zero, suc, ◌+◌, Bool, ◌&&◌, ◌||◌, List, [], ◌∷◌, Option, none, some, ltb, if◌then◌else◌,
}
use shard_lure.Common.Time.{Time}
use shard_lure.Store.Refetch.Schedule.{is_done, refetch_max_age}
use shard_lure.Store.Refetch.Table.{Row, is_unleased}

abbrev pub purge_chunk : ℕ
purge_chunk = 5000

-- `COALESCE(last_check_at, first_seen_at)`
abbrev pub last_activity : Option Time → Time → Time
last_activity none first_seen = first_seen
last_activity (some at) first_seen = at

-- The WHERE of the deletion.
unfoldable pub is_purgeable : Time → Time → Row → Bool
is_purgeable cutoff now r =
    ((is_done r.state && ltb (last_activity r.last_check_at r.first_seen_at) cutoff)
      || (ltb r.first_seen_at cutoff && ltb (r.first_seen_at + refetch_max_age) now))
    && is_unleased r.lease_until now

-- One transaction: how many rows it deleted, and the rows that are left. It deletes so many rows at
-- most, the first ones in the order in which SQLite visits them, which is the order of the list.
unfoldable pub purge_some : (Row → Bool) → ℕ → List Row → ℕ × List Row
purge_some p n [] = (0, [])
purge_some p zero (r ∷ rows) = (0, r ∷ rows)
purge_some p (suc n) (r ∷ rows) =
    let deleted = purge_some p n rows in
    let passed = purge_some p (suc n) rows in
    if p r then (suc deleted.0, deleted.1) else (passed.0, r ∷ passed.1)

-- What a transaction finds of the rows that the one before it left: SQLite visits them in an order of
-- its own, and between the two, when no lock is held, other writers may have changed the table.
abbrev pub World : Type 0
World = ℕ → List Row → List Row

-- The loop, until a transaction deletes less than a whole chunk; `none` when the fuel is out. The
-- transaction with `suc fuel` rounds left finds `world fuel rows`.
unfoldable pub purge_loop : World → (Row → Bool) → ℕ → List Row → Option (List Row)
purge_loop world p zero rows = none
purge_loop world p (suc fuel) rows =
    let round = purge_some p purge_chunk (world fuel rows) in
    let again = purge_loop world p fuel round.1 in
    if ltb round.0 purge_chunk then some round.1 else again

-- `purgeRefetchSchedule` at the time `now`.
unfoldable pub purge_refetch_schedule : World → ℕ → Time → Time → List Row → Option (List Row)
purge_refetch_schedule world fuel cutoff now rows =
    purge_loop world (is_purgeable cutoff now) fuel rows
