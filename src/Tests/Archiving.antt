-- ===== src/Tests/Archiving.antt =====
-- internal/store/capture_files.go, the queue of kept files, at concrete inputs.
use shard_lure.Common.{
  ℕ, ◌+◌, ◌*◌, ◌≡◌, ◌≢◌, refl, true, false, ◌&&◌, [], ◌∷◌, Option, none, some, Bytes, codes, eqb,
  pos, All, any, ◌==◌, to_lower, arith,
}
use shard_lure.Common.Utf8.{valid_string, valid_after}
use shard_lure.Common.Time.{Time, second, day}
use shard_lure.Common.Result.{ok}
use shard_lure.Store.Files.{
  Job, pending, retry, archived, no_reason, read_failure, immediate, update_jobs,
}
use shard_lure.Store.Files.Claim.{
  FileJob, claim_file_captures, claim_rows, lease_rows, settle, due_ids, due_jobs, insert_due,
  first_ids, is_due, is_exhausted, returned, invalid_ids, scan_job, reject_all, insert_job,
  sort_jobs, is_invalid,
}
use shard_lure.Store.Files.Verdicts.{FileResult, valid_capture_hash, is_valid_as, verdict}
use shard_lure.Store.Files.Artifacts.{add_artifact, find_artifact}
use shard_lure.Store.Files.Complete.{
  Store, may_complete, is_fenced, find_job, completed_rows, fence_rows, is_no_call, settle_job,
  complete_file_capture,
}
use shard_lure.Store.Files.Names.{base, strip_slashes, last_element, file_source_name}
use shard_lure.Store.Files.Rows.{Event, file_download, file_upload, new_job, reason_of, lengths}
use shard_lure.Store.Files.Discover.{
  Feed, has_event, take_rows, select, first_id, queue_row, read_row, queue_file_capture_rows,
  discovered, discover_file_captures, backfilled, backfill_upload_captures,
}
use shard_lure.Store.Files.Covered.{IsCovered}
use shard_lure.Store.Files.Turns.{logs, turns, turn, log_event, last_id}
use shard_lure.Store.Files.CatchUp.{rounds-is_queued, rounds}
use shard_lure.Store.Files.Pages.{is_queued}
use shard_lure.Store.Files.History.{claims, completes, run, run_step}
use shard_lure.Store.Files.Keys.{UniqueIds}
use shard_lure.Store.Files.Once.{answered_once}
use shard_lure.Store.Files.Backed.{IsBacked, run-IsBacked}

base_plain : base (codes "/tmp/drop/") ≡ codes "drop"
unfolding base strip_slashes last_element eqb
base_plain = refl

base_root : base (codes "//") ≡ codes "/"
unfolding base strip_slashes last_element eqb
base_root = refl

base_name : base (codes "sshd") ≡ codes "sshd"
unfolding base strip_slashes last_element eqb
base_name = refl

name_valid : valid_string (195 ∷ 169 ∷ []) ≡ true
unfolding valid_after
name_valid = refl

name_invalid : valid_string (195 ∷ 40 ∷ []) ≡ false
unfolding valid_after
name_invalid = refl

abbrev sha : Bytes
sha = codes "0123456789abcdef0123456789ABCDEF0123456789abcdef0123456789abcdef"

abbrev waiting : ℕ → Job
waiting id = record {
  id = id;
  event_id = id + 10;
  source_name = codes "drop.sh";
  delivery_url = codes "http://a/x";
  src_ip = codes "198.51.100.7";
  session_id = codes "s";
  actor_id = codes "a";
  expected_sha256 = codes "";
  observed_at = some (100 * day);
  state = pending;
  attempts = 0;
  next_attempt_at = immediate;
  lease_started_at = none;
  lease_until = none;
  last_clock_at = none;
  lease_token = 0;
  result_sha256 = codes "";
  result_path = codes "";
  result_size = 0;
  reason = no_reason;
}

abbrev files : Store
files = record { jobs = waiting 1 ∷ waiting 2 ∷ []; artifacts = []; uploads = [] }

abbrev dawn : Time
dawn = 101 * day

abbrev first_job : FileJob
first_job = record {
  id = 1;
  event_id = 11;
  lease_token = 1;
  source_name = codes "drop.sh";
  delivery_url = codes "http://a/x";
  src_ip = codes "198.51.100.7";
  session_id = codes "s";
  actor_id = codes "a";
  expected_sha256 = codes "";
  observed_at = 100 * day;
  attempts = 1;
}

abbrev kept : FileResult
kept = record {
  status = archived;
  reason = no_reason;
  local_path = codes "/data/f";
  sha256 = sha;
  size_bytes = pos 12;
}

abbrev unread : FileResult
unread = record {
  status = retry;
  reason = read_failure;
  local_path = codes "";
  sha256 = codes "";
  size_bytes = pos 0;
}

files_unique : UniqueIds files.jobs
files_unique = ((refl, tt), (tt, tt))

-- A worker claims both jobs, its lease ends, and it comes too late: a clock that is set back does
-- not help it.
answered_once_example :
    (complete_file_capture
      (run
        (complete_file_capture
          (run files (claims dawn (pos 5) (pos (60 * second)) ∷ []))
          first_job
          (dawn + 61 * second)
          unread).0
        (claims (dawn + 62 * second) (pos 1) (pos (60 * second)) ∷ []))
      first_job
      (dawn + 30 * second)
      kept).1
    ≢ ok tt
unfolding claim_file_captures claim_rows lease_rows settle due_ids due_jobs insert_due first_ids
    is_due is_exhausted returned invalid_ids scan_job reject_all insert_job sort_jobs is_invalid
    update_jobs is_valid_as is_no_call complete_file_capture settle_job may_complete fence_rows run
    run_step is_fenced eqb
answered_once_example =
    answered_once files dawn (pos 5) (pos (60 * second)) first_job []
      (claims (dawn + 62 * second) (pos 1) (pos (60 * second)) ∷ []) (dawn + 61 * second)
      (dawn + 30 * second) unread kept files_unique (refl, (refl, tt)) refl refl refl refl

run-IsBacked_example : IsBacked (
    run files
      (claims dawn (pos 5) (pos (60 * second)) ∷ completes first_job (dawn + second) kept ∷ []))
run-IsBacked_example =
    run-IsBacked files
      (claims dawn (pos 5) (pos (60 * second)) ∷ completes first_job (dawn + second) kept ∷ [])
      files_unique (refl, (refl, tt))

-- That worker's job is archived, with its artifact.
first_archived :
    any
      (λ r. r.id == 1 && eqb r.result_sha256 (to_lower sha))
      (run files (
        claims dawn (pos 5) (pos (60 * second))
        ∷ completes first_job (dawn + second) kept
        ∷ [])).jobs
    ≡ true
unfolding claim_file_captures claim_rows lease_rows settle due_ids due_jobs insert_due first_ids
    is_due is_exhausted returned invalid_ids scan_job reject_all insert_job sort_jobs is_invalid
    update_jobs is_valid_as is_no_call complete_file_capture settle_job may_complete fence_rows run
    run_step is_fenced eqb verdict add_artifact find_artifact find_job completed_rows
    valid_capture_hash valid_after to_lower
first_archived = refl

-- A clock by which every text that is there is one time.
abbrev one_time : Bytes → Option Time
one_time [] = none
one_time (c ∷ s) = some (100 * day)

abbrev download : ℕ → Event
download id = record {
  id = id;
  kind = file_download;
  is_cowrie = true;
  ts = codes "2026-01-01T00:00:00Z";
  filename = codes "/tmp/drop.sh";
  command = codes "http://a/x";
  src_ip = codes "198.51.100.7";
  session_id = codes "s";
  actor_id = codes "a";
  sha256 = codes "";
}

-- A feed that read the downloads before uploads were jobs.
abbrev legacy : Feed
legacy = record {
  events = record (download 3) { kind = file_upload; sha256 = sha } ∷ download 7 ∷ [];
  jobs = [];
  next_id = 1;
  cursor = some 5;
  backfill = none;
}

legacy-IsCovered : IsCovered legacy
unfolding IsCovered has_event
legacy-IsCovered =
    (((ground arith, tt), (tt, tt)), (ground arith, (ground arith, tt)), (refl, (refl, tt)))

rounds-is_queued_example :
    All
      (λ e.
        is_queued
          (rounds one_time 9 (pos 1) (pos 1) (turns one_time legacy (logs (download 0) ∷ []))).jobs
          e
        ≡ true)
      (turns one_time legacy (logs (download 0) ∷ [])).events
unfolding turns turn log_event last_id
rounds-is_queued_example =
    rounds-is_queued one_time legacy (logs (download 0) ∷ []) 8 (pos 1) (pos 1) legacy-IsCovered
      (ground arith, (ground arith, (ground arith, tt))) (ground arith)

-- Both calls queue their event.
legacy_queued :
    any
        (λ r. r.event_id == 3 && eqb r.source_name (to_lower sha))
        (rounds one_time 1 (pos 5) (pos 5) legacy).jobs
      && any
          (λ r. r.event_id == 7 && eqb r.source_name (codes "drop.sh"))
          (rounds one_time 1 (pos 5) (pos 5) legacy).jobs
    ≡ true
unfolding rounds discover_file_captures discovered backfill_upload_captures backfilled
    queue_file_capture_rows take_rows select first_id queue_row read_row has_event new_job reason_of
    lengths file_source_name base strip_slashes last_element valid_after valid_capture_hash eqb
    to_lower
legacy_queued = refl
