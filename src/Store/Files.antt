-- ===== src/Store/Files.antt =====
-- internal/store/capture_files.go: the queue of files that Cowrie kept, and their archiving. The table is
-- that of capture_file_jobs with the columns that the queue reads, and its results; times are
-- compared as times, which the fixed format of `captureTime` does as texts. A failing database
-- changes nothing and is not modelled.
pub mod Claim
pub mod Verdicts
pub mod Artifacts
pub mod Complete
pub mod Names
pub mod Rows
pub mod Discover
pub mod History
pub mod Keys
pub mod Spent
pub mod Issued
pub mod Once
pub mod Pages
pub mod Covered
pub mod Discovered
pub mod Backfilled
pub mod Turns
pub mod Moves
pub mod CatchUp
pub mod Kept
pub mod Backed
use shard_lure.Common.{
  ℕ, zero, suc, ◌+◌, ◌*◌, Bool, true, false, ◌&&◌, ◌||◌, not, List, [], ◌∷◌, Option, none, some,
  Bytes, eqb, ltb, leb, ◌==◌, is_some, if◌then◌else◌,
}
use shard_lure.Common.Time.{Time, day}

-- The states of a job, which are also the statuses of a result.
pub data State : Type 0 where
  pending retry leased archived rejected failed : State

-- `unknown` is a text that is no reason.
pub data Reason : Type 0 where
  no_reason invalid_timestamp invalid_source invalid_hash invalid_metadata missing_source
        hash_mismatch source_changed too_large empty read_failure write_failure canceled
        lease_expired attempts_exhausted unknown :
      Reason

-- A row of capture_file_jobs. `observed_at` is none where the column is NULL or no time.
pub record Job : Type 0 where
  pub id : ℕ
  pub event_id : ℕ
  pub source_name : Bytes
  pub delivery_url : Bytes
  pub src_ip : Bytes
  pub session_id : Bytes
  pub actor_id : Bytes
  pub expected_sha256 : Bytes
  pub observed_at : Option Time
  pub state : State
  pub attempts : ℕ
  pub next_attempt_at : Time
  pub lease_started_at : Option Time
  pub lease_until : Option Time
  pub last_clock_at : Option Time
  pub lease_token : ℕ
  pub result_sha256 : Bytes
  pub result_path : Bytes
  pub result_size : ℕ
  pub reason : Reason

pub data FileError : Type 0 where
  invalid_lease invalid_result invalid_observation claim_stale result_hash_mismatch
        identity_conflict :
      FileError

abbrev pub max_attempts : ℕ
max_attempts = 5

-- `fileCaptureImmediate`, Go's zero time
abbrev pub immediate : Time
immediate = 0

-- The first instant of the year 10000, from which on `captureTime` writes more than 30 bytes.
abbrev pub year_10000 : Time
year_10000 = 3652059 * day

abbrev pub is_writable : Time → Bool
is_writable t = ltb t year_10000

abbrev pub is_leased : State → Bool
is_leased leased = true
is_leased _ = false

-- `fileCaptureLiveStates`
abbrev pub is_live : State → Bool
is_live pending = true
is_live retry = true
is_live leased = true
is_live _ = false

-- `t <= now`, which is not true of NULL
abbrev pub has_passed : Option Time → Time → Bool
has_passed none now = false
has_passed (some t) now = leb t now

-- `t IS NULL OR t <= now`
abbrev pub is_past : Option Time → Time → Bool
is_past none now = true
is_past (some t) now = leb t now

-- `t > now`, which is not true of NULL
abbrev pub is_ahead : Option Time → Time → Bool
is_ahead none now = false
is_ahead (some t) now = ltb now t

-- `UPDATE capture_file_jobs SET … WHERE …`
unfoldable pub update_jobs : (Job → Bool) → (Job → Job) → List Job → List Job
update_jobs p f [] = []
update_jobs p f (r ∷ rows) = (if p r then f r else r) ∷ update_jobs p f rows

-- `CaptureFileProtected`
unfoldable pub capture_file_protected : List Job → Bytes → Bool
capture_file_protected [] name = false
capture_file_protected (r ∷ rows) name =
    eqb r.source_name name && is_live r.state || capture_file_protected rows name
