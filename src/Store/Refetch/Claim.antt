-- ===== src/Store/Refetch/Claim.antt =====
-- `ClaimRefetch` and `seedRefetchTx` of internal/store/refetch.go.
pub mod Chosen
pub mod Progress
use shard_lure.Common.{
  ℕ, zero, suc, ◌+◌, ◌||◌, Bool, true, false, ◌&&◌, not, is_nil, is_some, List, [], ◌∷◌, ◌++◌,
  Option, none, some, Bytes, eqb, ltb, leb, ◌==◌, ℤ, is_positive, to_ℕ, if◌then◌else◌,
}
use shard_lure.Common.Time.{Time, day, sub, at_least}
use shard_lure.Common.Result.{Result, ok, err}
use shard_lure.Store.Refetch.Schedule.{
  State, active, offline, done, is_done, refetch_max_age, next_refetch, refetchable_url,
}
use shard_lure.Store.Refetch.Table.{
  Row, RefetchError, lease_not_positive, is_unleased, update_where, find_row,
}

-- `seedRefetchTx`: INSERT OR IGNORE of the row of a capture that completes at `now`.
unfoldable pub seed_refetch : List Row → Bytes → Time → Time → Bytes → List Row
seed_refetch rows url first_seen now sha =
    if not (refetchable_url url) || is_some (find_row (λ r. eqb r.url url) rows)
    then rows
    else (let (next, state) = next_refetch first_seen now 0 in
        rows
        ++ record {
          url = url;
          first_seen_at = first_seen;
          next_check_at = if is_done state then now else next;
          consecutive_failures = 0;
          state = state;
          checks = 0;
          last_sha256 = if is_nil sha then none else some sha;
          last_check_at = none;
          lease_until = none;
        }
          ∷ [])

pub record RefetchJob : Type 0 where
  pub url : Bytes
  pub checks : ℕ
  pub first_seen : Time
  pub lease : Option Time  -- none for a job that no claim returned

abbrev pub refetch_settle_chunk : ℕ
refetch_settle_chunk = 500

-- Ten days old, not done, and under no live lease.
unfoldable pub is_overdue : Time → Row → Bool
is_overdue now r =
    not (is_done r.state)
    && (leb (r.first_seen_at + refetch_max_age) now && is_unleased r.lease_until now)

-- The settling update, of at most so many rows; which ones, SQLite chooses.
unfoldable pub settle : ℕ → Time → List Row → List Row
settle n now [] = []
settle zero now (r ∷ rows) = r ∷ rows
settle (suc n) now (r ∷ rows) =
    let later = settle (suc n) now rows in
    let fewer = settle n now rows in
    if is_overdue now r
    then record r { state = done; next_check_at = now; lease_until = none } ∷ fewer
    else r ∷ later

-- The WHERE of the claiming query.
unfoldable pub is_due : Time → Row → Bool
is_due now r =
    not (is_done r.state)
    && (leb r.next_check_at now
        && (is_unleased r.lease_until now && ltb now (r.first_seen_at + refetch_max_age)))

-- SQLite's order of texts.
unfoldable pub text_before : Bytes → Bytes → Bool
text_before [] [] = false
text_before [] (d ∷ t) = true
text_before (c ∷ s) [] = false
text_before (c ∷ s) (d ∷ t) = ltb c d || (c == d && text_before s t)

-- ORDER BY next_check_at, url
unfoldable pub is_before : Row → Row → Bool
is_before r s =
    ltb r.next_check_at s.next_check_at
    || (r.next_check_at == s.next_check_at && text_before r.url s.url)

abbrev pub better : Row → Option Row → Row
better r none = r
better r (some s) = if is_before s r then s else r

-- … LIMIT 1
unfoldable pub most_overdue : Time → List Row → Option Row
unfolding is_before
most_overdue now [] = none
most_overdue now (r ∷ rows) =
    let rest = most_overdue now rows in if is_due now r then some (better r rest) else rest

-- The fenced update of the claim.
unfoldable pub may_lease : RefetchJob → Time → Row → Bool
may_lease job now r =
    eqb r.url job.url
    && (r.checks == job.checks && (not (is_done r.state) && is_unleased r.lease_until now))

-- The transaction behind the settling update.
unfoldable pub lease_one : Time → ℕ → Option Row → List Row → Option RefetchJob × List Row
lease_one now lease none rows = (none, rows)
lease_one now lease (some r) rows =
    let job : RefetchJob = record {
      url = r.url;
      checks = r.checks;
      first_seen = r.first_seen_at;
      lease = some (now + lease);
    } in
    if at_least (sub now r.first_seen_at) refetch_max_age
    then (none, rows)
    else if not (is_some (find_row (may_lease job now) rows))
    then (none, rows)
    else (
      some job,
      update_where (may_lease job now) (λ s. record s { lease_until = some (now + lease) }) rows,
    )

-- `ClaimRefetch`
unfoldable pub claim_refetch :
    List Row → Time → ℤ → Result RefetchError (Option RefetchJob) × List Row
claim_refetch rows now lease =
    if not (is_positive lease)
    then (err lease_not_positive, rows)
    else (let settled = settle refetch_settle_chunk now rows in
        let (job, rows') = lease_one now (to_ℕ lease) (most_overdue now settled) settled in
        (ok job, rows'))
