-- ===== src/Store/Refetch/Complete.antt =====
-- `CompleteRefetch` and `ReleaseRefetch` of internal/store/refetch.go.
pub mod Capped
pub mod Epochs
pub mod Refused
use shard_lure.Common.{
  ℕ, zero, suc, ◌+◌, ◌*◌, ◌||◌, Bool, true, false, ◌&&◌, not, is_nil, is_some, List, [], ◌∷◌, ◌++◌,
  Option, none, some, Bytes, eqb, ltb, leb, ◌==◌, max, any, if◌then◌else◌,
}
use shard_lure.Common.Time.{Time, second}
use shard_lure.Common.Result.{Result, ok, err}
use shard_lure.Store.Refetch.Schedule.{State, active, offline, done, is_done, next_refetch}
use shard_lure.Store.Refetch.Table.{
  Row, Artifact, RefetchError, no_sha256, claim_stale, has_lease, is_unleased, update_where,
  find_row,
}
use shard_lure.Store.Refetch.Claim.{RefetchJob}

abbrev pub refetch_max_new_payloads : ℕ
refetch_max_new_payloads = 4

abbrev pub refetch_release_delay : ℕ
refetch_release_delay = 30 * second

pub record RefetchOutcome : Type 0 where
  pub is_ok : Bool
  pub sha256 : Bytes

-- The WHERE of the fencing query: the lease this claim wrote, and still live.
unfoldable pub is_current : RefetchJob → Time → Time → Row → Bool
is_current job lease now r =
    eqb r.url job.url
    && (r.checks == job.checks
        && (not (is_unleased r.lease_until now) && has_lease r.lease_until lease))

-- `url=? AND status='fetched' AND sha256=?`
unfoldable pub is_held : Bytes → Bytes → Artifact → Bool
is_held url sha a = eqb a.url url && (a.fetched && eqb a.sha256 sha)

-- The update of last_refetch_at.
unfoldable pub touch : Bytes → Bytes → Time → List Artifact → List Artifact
touch url sha now [] = []
touch url sha now (a ∷ arts) =
    (if is_held url sha a then record a { last_refetch_at = some now } else a)
    ∷ touch url sha now arts

-- `COALESCE(MAX(fetch_epoch), -1) + 1`
unfoldable pub next_epoch : Bytes → List Artifact → ℕ
next_epoch url [] = 0
next_epoch url (a ∷ arts) =
    let rest = next_epoch url arts in if eqb a.url url then max (a.fetch_epoch + 1) rest else rest

-- The row of the first sighting, the right side of the LEFT JOIN.
unfoldable pub first_sighting : Bytes → List Artifact → Option Artifact
first_sighting url [] = none
first_sighting url (a ∷ arts) =
    if eqb a.url url && a.fetch_epoch == 0 then some a else first_sighting url arts

abbrev pub coalesce : Option Time → Time → Time
coalesce none t = t
coalesce (some u) t = u

-- The new row; with no first sighting the provenance is empty and the depth 1.
unfoldable pub new_artifact :
    Bytes → Bytes → Time → Time → List Artifact → Option Artifact → Artifact
new_artifact url sha now first_seen arts none = record {
  url = url;
  fetch_epoch = next_epoch url arts;
  fetched = true;
  sha256 = sha;
  provenance = none;
  first_observed_at = some first_seen;
  last_refetch_at = none;
  last_successful_fetch_at = some now;
  depth = 1;
}
new_artifact url sha now first_seen arts (some a) = record {
  url = url;
  fetch_epoch = next_epoch url arts;
  fetched = true;
  sha256 = sha;
  provenance = a.provenance;
  first_observed_at = some (coalesce a.first_observed_at first_seen);
  last_refetch_at = none;
  last_successful_fetch_at = some now;
  depth = a.depth;
}

-- `SELECT COUNT(*) FROM artifacts WHERE url=? AND fetch_epoch>0`
unfoldable pub rotated : Bytes → List Artifact → ℕ
rotated url [] = 0
rotated url (a ∷ arts) =
    let rest = rotated url arts in if eqb a.url url && ltb 0 a.fetch_epoch then suc rest else rest

-- What the outcome does to the artifacts: whether a new payload was recorded, and the rows.
unfoldable pub record_outcome :
    Bytes → Time → Time → RefetchOutcome → List Artifact → Bool × List Artifact
record_outcome url first_seen now out arts =
    if not out.is_ok
    then (false, arts)
    else if any (is_held url out.sha256) arts
    then (false, touch url out.sha256 now arts)
    else (
      true,
      arts ++ new_artifact url out.sha256 now first_seen arts (first_sighting url arts) ∷ [],
    )

-- The state behind the cap on new payloads.
unfoldable pub capped_state : Bytes → Bool → List Artifact → State → State
capped_state url new_payload arts state =
    if new_payload && (not (is_done state) && leb refetch_max_new_payloads (rotated url arts))
    then done
    else state

abbrev pub or_else : Bool → Bytes → Option Bytes → Option Bytes
or_else true sha last = some sha
or_else false sha last = last

-- The columns that the final update sets.
unfoldable pub advance : Time → RefetchOutcome → ℕ → Time × State → State → Row → Row
advance now out failures (next, _) state r = record r {
  checks = r.checks + 1;
  last_check_at = some now;
  last_sha256 = or_else out.is_ok out.sha256 r.last_sha256;
  consecutive_failures = failures;
  next_check_at = if is_done state then now else next;
  state = state;
  lease_until = none;
}

abbrev pub is_job : RefetchJob → Row → Bool
is_job job r = eqb r.url job.url && r.checks == job.checks

-- The transaction, on the row that the fencing query found.
unfoldable pub complete_row :
    List Row
    → List Artifact
    → RefetchJob
    → Time
    → RefetchOutcome
    → Row
    → Bool × List Row × List Artifact
complete_row rows arts job now out r =
    let failures = if out.is_ok then 0 else r.consecutive_failures + 1 in
    let (new_payload, arts') = record_outcome job.url r.first_seen_at now out arts in
    let plan = next_refetch r.first_seen_at now failures in
    let state = capped_state job.url new_payload arts' plan.1 in
    (new_payload, update_where (is_job job) (advance now out failures plan state) rows, arts')

unfoldable pub complete_found :
    List Row
    → List Artifact
    → RefetchJob
    → Time
    → RefetchOutcome
    → Option Row
    → Result RefetchError Bool × List Row × List Artifact
complete_found rows arts job now out none = (err claim_stale, rows, arts)
complete_found rows arts job now out (some r) =
    let (new_payload, rows', arts') = complete_row rows arts job now out r in
    (ok new_payload, rows', arts')

unfoldable pub complete_leased :
    List Row
    → List Artifact
    → RefetchJob
    → Time
    → RefetchOutcome
    → Option Time
    → Result RefetchError Bool × List Row × List Artifact
complete_leased rows arts job now out none = (err claim_stale, rows, arts)
complete_leased rows arts job now out (some lease) =
    complete_found rows arts job now out (find_row (is_current job lease now) rows)

-- `CompleteRefetch`
unfoldable pub complete_refetch :
    List Row
    → List Artifact
    → RefetchJob
    → Time
    → RefetchOutcome
    → Result RefetchError Bool × List Row × List Artifact
complete_refetch rows arts job now out =
    if out.is_ok && is_nil out.sha256
    then (err no_sha256, rows, arts)
    else complete_leased rows arts job now out job.lease

abbrev pub is_leased_to : RefetchJob → Time → Row → Bool
is_leased_to job lease r = is_job job r && has_lease r.lease_until lease

unfoldable pub release_leased :
    List Row → RefetchJob → Time → Option Time → Result RefetchError (Unit {0}) × List Row
release_leased rows job now none = (err claim_stale, rows)
release_leased rows job now (some lease) =
    if not (is_some (find_row (is_leased_to job lease) rows)) then (err claim_stale, rows) else (
      ok tt,
      update_where (is_leased_to job lease)
          (λ r. record r { lease_until = none; next_check_at = now + refetch_release_delay }) rows,
    )

-- `ReleaseRefetch`
unfoldable pub release_refetch :
    List Row → RefetchJob → Time → Result RefetchError (Unit {0}) × List Row
release_refetch rows job now = release_leased rows job now job.lease
