-- ===== src/Store/Files/Complete.antt =====
-- internal/store/capture_files.go: `CompleteFileCapture`.
use shard_lure.Common.{
  ℕ, ◌+◌, max, Bool, ◌&&◌, ◌||◌, not, List, [], ◌∷◌, Option, none, some, Bytes, any, to_lower, leb,
  ◌==◌, to_ℕ, if◌then◌else◌,
}
use shard_lure.Common.Time.{Time, is_zero}
use shard_lure.Common.Result.{Result, ok, err}
use shard_lure.Store.Files.{
  Job, State, archived, retry, failed, Reason, lease_expired, attempts_exhausted, FileError,
  invalid_result, invalid_observation, claim_stale, max_attempts, is_writable, is_leased,
  has_passed, is_past, is_ahead, update_jobs,
}
use shard_lure.Store.Files.Claim.{FileJob}
use shard_lure.Store.Files.Verdicts.{FileResult, is_valid, Verdict, verdict}
use shard_lure.Store.Files.Artifacts.{Artifact, archive}

-- The tables that a completion reads and writes: the queue, the artifacts, and the events that are
-- uploads of Cowrie.
pub record Store : Type 0 where
  pub jobs : List Job
  pub artifacts : List Artifact
  pub uploads : List ℕ

-- The row of a job that its token still opens.
abbrev pub has_token : ℕ → ℕ → Job → Bool
has_token id token r = r.id == id && (r.lease_token == token && is_leased r.state)

-- The WHERE of the first update: the lease runs.
unfoldable pub may_complete : ℕ → ℕ → Time → Job → Bool
may_complete id token now r =
    has_token id token r
    && (has_passed r.lease_started_at now
        && (is_ahead r.lease_until now && is_past r.last_clock_at now))

-- The WHERE of the fence.
unfoldable pub is_fenced : ℕ → ℕ → Time → Job → Bool
is_fenced id token now r =
    has_token id token r
    && (has_passed r.lease_until now
        || (is_ahead r.lease_started_at now || is_ahead r.last_clock_at now))

-- `MAX(COALESCE(t,now),now)`
abbrev pub latest : Option Time → Time → Time
latest none now = now
latest (some t) now = max t now

abbrev pub fence_state : ℕ → State
fence_state n = if leb max_attempts n then failed else retry

abbrev pub fence_reason : ℕ → Reason
fence_reason n = if leb max_attempts n then attempts_exhausted else lease_expired

abbrev pub fence : Time → Job → Job
fence now r = record r {
  state = fence_state r.attempts;
  reason = fence_reason r.attempts;
  lease_token = r.lease_token + 1;
  lease_until = none;
  next_attempt_at = latest r.last_clock_at now;
  last_clock_at = some (latest r.last_clock_at now);
}

unfoldable pub find_job : (Job → Bool) → List Job → Option Job
find_job p [] = none
find_job p (r ∷ rows) = if p r then some r else find_job p rows

-- The hash of the result, lower-cased where it was archived.
abbrev pub stored_hash : State → Bytes → Bytes
stored_hash archived sha = to_lower sha
stored_hash s sha = sha

-- The last update.
abbrev pub complete_row : Verdict → FileResult → Job → Job
complete_row v result r = record r {
  state = v.state;
  reason = v.reason;
  result_path = result.local_path;
  result_sha256 = stored_hash v.state result.sha256;
  result_size = to_ℕ result.size_bytes;
  next_attempt_at = v.next;
  lease_until = none;
}

abbrev pub clock_row : Time → Job → Job
clock_row now r = record r { last_clock_at = some now }

-- What a failed transaction leaves is what was there.
abbrev pub commit :
    Store → List Job → Result FileError (List Artifact) → Store × Result FileError (Unit {0})
commit s jobs (ok rows) = (record s { jobs = jobs; artifacts = rows }, ok tt)
commit s jobs (err e) = (s, err e)

abbrev pub is_upload : Store → Job → Bool
is_upload s r = any (λ e. e == r.event_id) s.uploads

-- The rows after the first update and the last.
unfoldable pub completed_rows : ℕ → ℕ → Time → Verdict → FileResult → List Job → List Job
completed_rows id token now v result rows =
    update_jobs (has_token id token) (complete_row v result)
      (update_jobs (may_complete id token now) (clock_row now) rows)

abbrev pub complete_at :
    Store → ℕ → ℕ → Time → FileResult → Job → Option Time → Store × Result FileError (Unit {0})
complete_at s id token now result r none = (s, err invalid_observation)
complete_at s id token now result r (some at) =
    let v = verdict r (is_upload s r) now result in
    commit s (completed_rows id token now v result s.jobs) (archive v.state r at result s.artifacts)

-- What follows the first update where it found the row.
abbrev pub complete_held :
    Store → ℕ → ℕ → Time → FileResult → Option Job → Store × Result FileError (Unit {0})
complete_held s id token now result none = (s, err claim_stale)
complete_held s id token now result (some r) = complete_at s id token now result r r.observed_at

-- Where it did not.
unfoldable pub fence_rows : Store → ℕ → ℕ → Time → Store
fence_rows s id token now = record s {
  jobs = update_jobs (is_fenced id token now) (fence now) s.jobs;
}

abbrev pub is_job : ℕ → Job → Bool
is_job id r = r.id == id

-- The guard that refuses a call before any table is read.
unfoldable pub is_no_call : FileJob → Time → Bool
is_no_call job now = is_zero now || (not (is_writable now) || (job.id == 0 || job.lease_token == 0))

unfoldable pub settle_job :
    Store → FileJob → Time → FileResult → Store × Result FileError (Unit {0})
settle_job s job now result =
    if any (may_complete job.id job.lease_token now) s.jobs
    then complete_held s job.id job.lease_token now result (find_job (is_job job.id) s.jobs)
    else (fence_rows s job.id job.lease_token now, err claim_stale)

-- `CompleteFileCapture`
unfoldable pub complete_file_capture :
    Store → FileJob → Time → FileResult → Store × Result FileError (Unit {0})
complete_file_capture s job now result =
    if not (is_valid result)
    then (s, err invalid_result)
    else (if is_no_call job now then (s, err claim_stale) else settle_job s job now result)
