-- ===== src/Observability/State.antt =====
-- internal/observability/state.go: the kinds that it numbers, and the state of the monitor. A Go
-- constant is its number; an array of counters is a function of its indices.
use shard_lure.Common.{ℕ, Bool, false, ℤ, pos}
use shard_lure.Common.Time.{Time}

abbrev pub starting : ℤ
starting = pos 0

abbrev pub serving : ℤ
serving = pos 1

abbrev pub draining : ℤ
draining = pos 2

abbrev pub source_count : ℕ
source_count = 2

abbrev pub capture_url : ℕ
capture_url = 2

abbrev pub capture_files : ℕ
capture_files = 3

abbrev pub backfills : ℕ
backfills = 4

abbrev pub worker_count : ℕ
worker_count = 8

abbrev pub provider_count : ℕ
provider_count = 11

abbrev pub operation_count : ℕ
operation_count = 5

abbrev pub storage_error : ℕ
storage_error = 7

abbrev pub outcome_count : ℕ
outcome_count = 8

abbrev pub failure_none : ℤ
failure_none = pos 0

abbrev pub failure_count : ℕ
failure_count = 5

pub data Reason : Type 0 where
  is_starting is_draining sample_unavailable database_unavailable data_unavailable : Reason
  evidence_unavailable low_space worker_unavailable worker_stalled : Reason

pub data ObservationError : Type 0 where
  invalid_observation invalid_state : ObservationError

pub record Sample : Type 0 where
  pub at : Time
  pub database_up : Bool
  pub data_accessible : Bool
  pub capture_required : Bool
  pub evidence_accessible : Bool
  pub data_free_bytes : ℕ
  pub evidence_free_bytes : ℕ

pub record WorkerState : Type 0 where
  pub enabled : Bool
  pub running : Bool
  pub completed : Bool
  pub required : Bool
  pub last_progress : Time
  pub operation_deadline : Time
  pub failure : ℤ

-- The fields of `Snapshot` that the monitor keeps.
pub record Monitor : Type 0 where
  pub started_at : Time
  pub phase : ℤ
  pub min_free_bytes : ℕ
  pub sample : Sample
  pub workers : ℕ → WorkerState
  pub ingest : ℕ → ℕ → ℕ
  pub provider_requests : ℕ → ℕ → ℕ → ℕ
  pub durable_shares : ℕ → ℕ → ℕ

abbrev pub zero_sample : Sample
zero_sample = record {
  at = 0;
  database_up = false;
  data_accessible = false;
  capture_required = false;
  evidence_accessible = false;
  data_free_bytes = 0;
  evidence_free_bytes = 0;
}

abbrev pub zero_worker : WorkerState
zero_worker = record {
  enabled = false;
  running = false;
  completed = false;
  required = false;
  last_progress = 0;
  operation_deadline = 0;
  failure = failure_none;
}

-- `New`, at the time that its clock shows.
abbrev pub new : Time → ℕ → Monitor
new now min_free_bytes = record {
  started_at = now;
  phase = starting;
  min_free_bytes = min_free_bytes;
  sample = zero_sample;
  workers = λ w. zero_worker;
  ingest = λ s o. 0;
  provider_requests = λ p q o. 0;
  durable_shares = λ p o. 0;
}
