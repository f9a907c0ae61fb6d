-- ===== src/Store/Files/Claim.antt =====
-- internal/store/capture_files.go: `ClaimFileCaptures`.
use shard_lure.Common.{
  ℕ, zero, suc, ◌+◌, Bool, ◌&&◌, ◌||◌, not, List, [], ◌∷◌, Option, none, some, is_some, Bytes, any,
  ltb, leb, ◌==◌, ℤ, pos, negsuc, is_positive, to_ℕ, if◌then◌else◌,
}
use shard_lure.Common.Time.{Time, is_zero, hour}
use shard_lure.Common.Result.{Result, ok, err}
use shard_lure.Store.Files.{
  Job, leased, failed, rejected, attempts_exhausted, invalid_timestamp, FileError, invalid_lease,
  max_attempts, is_writable, is_leased, is_live, has_passed, is_past, update_jobs,
}

-- A job as a worker holds it.
pub record FileJob : Type 0 where
  pub id : ℕ
  pub event_id : ℕ
  pub lease_token : ℕ
  pub source_name : Bytes
  pub delivery_url : Bytes
  pub src_ip : Bytes
  pub session_id : Bytes
  pub actor_id : Bytes
  pub expected_sha256 : Bytes
  pub observed_at : Time
  pub attempts : ℕ

-- The first update's WHERE: the fifth attempt whose lease ended.
unfoldable pub is_exhausted : Time → Job → Bool
is_exhausted now r =
    is_leased r.state
    && (leb max_attempts r.attempts
        && (has_passed r.lease_until now && is_past r.last_clock_at now))

abbrev pub exhaust : Time → Job → Job
exhaust now r = record r {
  state = failed;
  reason = attempts_exhausted;
  lease_token = r.lease_token + 1;
  lease_until = none;
  last_clock_at = some now;
}

-- What is due.
unfoldable pub is_due : Time → Job → Bool
is_due now r =
    is_live r.state
    && (ltb r.attempts max_attempts
        && (leb r.next_attempt_at now
            && (is_past r.lease_until now && is_past r.last_clock_at now)))

-- `ORDER BY next_attempt_at,id`
abbrev pub is_before : Job → Job → Bool
is_before r s =
    ltb r.next_attempt_at s.next_attempt_at
    || r.next_attempt_at == s.next_attempt_at && leb r.id s.id

unfoldable pub insert_due : Job → List Job → List Job
insert_due r [] = r ∷ []
insert_due r (s ∷ rows) =
    let rest = insert_due r rows in if is_before r s then r ∷ s ∷ rows else s ∷ rest

unfoldable pub due_jobs : Time → List Job → List Job
due_jobs now [] = []
due_jobs now (r ∷ rows) =
    let rest = due_jobs now rows in if is_due now r then insert_due r rest else rest

-- `LIMIT`
unfoldable pub first_ids : ℕ → List Job → List ℕ
first_ids zero rows = []
first_ids (suc n) [] = []
first_ids (suc n) (r ∷ rows) = r.id ∷ first_ids n rows

abbrev pub has_id : List ℕ → Job → Bool
has_id ids r = any (λ i. i == r.id) ids

abbrev pub lease_job : Time → Time → Job → Job
lease_job now until r = record r {
  state = leased;
  attempts = r.attempts + 1;
  lease_token = r.lease_token + 1;
  lease_started_at = some now;
  lease_until = some until;
  last_clock_at = some now;
}

abbrev pub file_job : Job → Time → FileJob
file_job r at = record {
  id = r.id;
  event_id = r.event_id;
  lease_token = r.lease_token;
  source_name = r.source_name;
  delivery_url = r.delivery_url;
  src_ip = r.src_ip;
  session_id = r.session_id;
  actor_id = r.actor_id;
  expected_sha256 = r.expected_sha256;
  observed_at = at;
  attempts = r.attempts;
}

abbrev pub job_at : Job → Option Time → Option FileJob
job_at r none = none
job_at r (some at) = some (file_job r at)

-- `scanFileCaptureJob`: a row without a time of observation is no job.
unfoldable pub scan_job : Job → Option FileJob
scan_job r = job_at r r.observed_at

abbrev pub add_job : Option FileJob → List FileJob → List FileJob
add_job none jobs = jobs
add_job (some j) jobs = j ∷ jobs

-- The rows that RETURNING yields, scanned.
unfoldable pub returned : List ℕ → List Job → List FileJob
returned ids [] = []
returned ids (r ∷ rows) =
    let rest = returned ids rows in if has_id ids r then add_job (scan_job r) rest else rest

-- `invalid`: those of them that are no jobs.
unfoldable pub invalid_ids : List ℕ → List Job → List ℕ
invalid_ids ids [] = []
invalid_ids ids (r ∷ rows) =
    let rest = invalid_ids ids rows in
    if has_id ids r && not (is_some (scan_job r)) then r.id ∷ rest else rest

abbrev pub reject : Job → Job
reject r = record r { state = rejected; reason = invalid_timestamp; lease_until = none }

unfoldable pub reject_all : List ℕ → List Job → List Job
reject_all [] rows = rows
reject_all (i ∷ ids) rows =
    reject_all ids (update_jobs (λ r. r.id == i && is_leased r.state) reject rows)

-- `sort.Slice` by ID
unfoldable pub insert_job : FileJob → List FileJob → List FileJob
insert_job j [] = j ∷ []
insert_job j (k ∷ jobs) =
    let rest = insert_job j jobs in if leb j.id k.id then j ∷ k ∷ jobs else k ∷ rest

unfoldable pub sort_jobs : List FileJob → List FileJob
sort_jobs [] = []
sort_jobs (j ∷ jobs) = insert_job j (sort_jobs jobs)

abbrev pub claim_limit : ℤ → ℕ
claim_limit (pos zero) = 32
claim_limit (pos n) = if ltb 32 n then 32 else n
claim_limit (negsuc n) = 32

-- The guard of the arguments.
unfoldable pub is_invalid : Time → ℤ → Bool
is_invalid now lease =
    is_zero now
    || (not (is_positive lease) || (ltb hour (to_ℕ lease) || not (is_writable (now + to_ℕ lease))))

-- The table after the first update.
unfoldable pub settle : Time → List Job → List Job
settle now rows = update_jobs (is_exhausted now) (exhaust now) rows

-- The IDs that the subquery of the second update selects.
unfoldable pub due_ids : Time → ℕ → List Job → List ℕ
due_ids now n rows = first_ids n (due_jobs now (settle now rows))

-- The table after the second update.
unfoldable pub lease_rows : Time → Time → List ℕ → List Job → List Job
lease_rows now until ids rows = update_jobs (has_id ids) (lease_job now until) (settle now rows)

-- `ClaimFileCaptures`, its transaction: the table afterwards and the jobs.
unfoldable pub claim_rows : List Job → Time → ℕ → Time → List Job × List FileJob
claim_rows rows now n until =
    let ids = due_ids now n rows in
    let held = lease_rows now until ids rows in
    (reject_all (invalid_ids ids held) held, sort_jobs (returned ids held))

-- `ClaimFileCaptures`
unfoldable pub claim_file_captures :
    List Job → Time → ℤ → ℤ → List Job × Result FileError (List FileJob)
claim_file_captures rows now limit lease =
    let claimed = claim_rows rows now (claim_limit limit) (now + to_ℕ lease) in
    if is_invalid now lease then (rows, err invalid_lease) else (claimed.0, ok claimed.1)
