-- ===== src/Tests/Watching.antt =====
-- internal/observability/state.go at concrete inputs.
use shard_lure.Common.{
  arith, ◌+◌, ◌*◌, ◌≡◌, refl, true, false, List, [], ◌∷◌, pos, negsuc, if◌then◌else◌, ◌==◌,
}
use shard_lure.Common.Time.{Time, day, second}
use shard_lure.Common.Result.{ok}
use shard_lure.Observability.State.{Sample, WorkerState, Monitor, new, zero_worker}
use shard_lure.Observability.Monitor.{
  ready, sample_valid, is_capture_required, workers_check, worker_check, max_uint64,
  is_contradictory,
}
use shard_lure.Observability.Monitor.History.{
  Call, phase_set, worker_set, ingest_seen, sampled, IsConsistent, run, seen, counter_run,
}

abbrev noon : Time
noon = 100 * day

abbrev healthy : Sample
healthy = record {
  at = noon;
  database_up = true;
  data_accessible = true;
  capture_required = true;
  evidence_accessible = true;
  data_free_bytes = 5000;
  evidence_free_bytes = 5000;
}

abbrev tailing : WorkerState
tailing = record {
  enabled = true;
  running = true;
  completed = false;
  required = true;
  last_progress = noon;
  operation_deadline = 0;
  failure = pos 0;
}

abbrev calls : List Call
calls =
    phase_set (pos 1)
    ∷ worker_set (pos 0) tailing
    ∷ ingest_seen (pos 1) (pos 0) 40
    ∷ sampled healthy
    ∷ ingest_seen (pos 1) (pos 0) (2 * max_uint64)
    ∷ ingest_seen (negsuc 0) (pos 0) 7
    ∷ []

abbrev serving_monitor : Monitor
serving_monitor = record (new noon 4096) {
  phase = pos 1;
  sample = healthy;
  workers = λ w. if w == 0 then tailing else zero_worker;
}

is_up : ready serving_monitor (noon + 9 * second) ≡ ok tt
unfolding ready sample_valid is_capture_required workers_check worker_check
is_up = refl

new-IsConsistent : IsConsistent (new noon 4096)
unfolding is_contradictory
new-IsConsistent w = refl

counter_run_example : (run (new noon 4096) calls).ingest 1 0 ≡ max_uint64
unfolding seen
counter_run_example =
    counter_run (new noon 4096) calls 1 0 (omega arith) (omega arith) (omega arith)
