-- ===== src/Observability/Monitor.antt =====
-- The operations of `Monitor` in internal/observability/state.go. Each runs under the mutex, so it is
-- a function from the state to an answer and the state.
pub mod Readiness
pub mod History
use shard_lure.Common.{
  ℕ, zero, suc, ◌+◌, ◌-◌, ◌*◌, ◌^◌, ◌%◌, Bool, true, false, ◌&&◌, ◌||◌, not, ltb, leb, ◌==◌, ℤ, pos,
  negsuc, to_ℕ, if◌then◌else◌,
}
use shard_lure.Common.Time.{Time, is_zero, second, sub, after, longer_than, at_least}
use shard_lure.Common.Result.{Result, ok, err, return_if, ◌>>=◌, ◌>>◌}
use shard_lure.Observability.State.{
  starting, serving, draining, source_count, capture_url, capture_files, backfills, worker_count,
  provider_count, operation_count, storage_error, outcome_count, failure_none, failure_count,
  Reason, is_starting, is_draining, sample_unavailable, database_unavailable, data_unavailable,
  evidence_unavailable, low_space, worker_unavailable, worker_stalled, ObservationError,
  invalid_observation, invalid_state, Sample, WorkerState, Monitor,
}

-- `0 <= i && i < n`
abbrev pub in_range : ℤ → ℕ → Bool
in_range (pos i) n = ltb i n
in_range (negsuc i) n = false

-- `a < b` on Go's int
abbrev pub int_less : ℤ → ℤ → Bool
int_less (pos a) (pos b) = ltb a b
int_less (pos a) (negsuc b) = false
int_less (negsuc a) (pos b) = true
int_less (negsuc a) (negsuc b) = ltb b a

-- `SetPhase`
unfoldable pub set_phase : Monitor → ℤ → Result ObservationError (Unit {0}) × Monitor
set_phase m phase =
    if int_less phase starting || int_less draining phase
    then (err invalid_observation, m)
    else if int_less phase m.phase
    then (err invalid_state, m)
    else (ok tt, record m { phase = phase })

-- The second guard of `SetWorker`.
unfoldable pub is_contradictory : ℕ → WorkerState → Bool
is_contradictory worker s =
    (not s.enabled && (s.running || (s.required || s.completed)))
    || (s.completed && (s.running || not (worker == backfills)))

-- `SetWorker`
unfoldable pub set_worker : Monitor → ℤ → WorkerState → Result ObservationError (Unit {0}) × Monitor
unfolding is_contradictory
set_worker m worker s =
    if not (in_range worker worker_count) || not (in_range s.failure failure_count)
    then (err invalid_observation, m)
    else if is_contradictory (to_ℕ worker) s
    then (err invalid_state, m)
    else (ok tt, record m { workers = λ w. if w == to_ℕ worker then s else m.workers w })

abbrev pub max_uint64 : ℕ
max_uint64 = 2 ^ 64 - 1

-- `addCounter`, on the value behind the pointer.
unfoldable pub add_counter : ℕ → ℕ → ℕ
add_counter value n = if ltb (max_uint64 - value) n then max_uint64 else (value + n) % 2 ^ 64

-- `ObserveIngest`
unfoldable pub observe_ingest : Monitor → ℤ → ℤ → ℕ → Result ObservationError (Unit {0}) × Monitor
observe_ingest m source outcome n =
    if not (in_range source source_count) || not (in_range outcome outcome_count)
    then (err invalid_observation, m)
    else (
      ok tt,
      record m {
        ingest = λ s o.
            if s == to_ℕ source && o == to_ℕ outcome
            then add_counter (m.ingest s o) n
            else m.ingest s o;
      },
    )

-- `ObserveProvider`
unfoldable pub observe_provider : Monitor → ℤ → ℤ → ℤ → Result ObservationError (Unit {0}) × Monitor
observe_provider m provider operation outcome =
    if not (in_range provider provider_count)
      || (not (in_range operation operation_count)
          || (not (in_range outcome outcome_count) || to_ℕ outcome == storage_error))
    then (err invalid_observation, m)
    else (
      ok tt,
      record m {
        provider_requests = λ p q o.
            if p == to_ℕ provider && (q == to_ℕ operation && o == to_ℕ outcome)
            then add_counter (m.provider_requests p q o) 1
            else m.provider_requests p q o;
      },
    )

-- `ObserveDurableShare`
unfoldable pub observe_durable_share :
    Monitor → ℤ → ℤ → ℕ → Result ObservationError (Unit {0}) × Monitor
observe_durable_share m provider outcome n =
    if not (in_range provider provider_count) || not (in_range outcome outcome_count)
    then (err invalid_observation, m)
    else (
      ok tt,
      record m {
        durable_shares = λ p o.
            if p == to_ℕ provider && o == to_ℕ outcome
            then add_counter (m.durable_shares p o) n
            else m.durable_shares p o;
      },
    )

-- `RecordSample`
unfoldable pub record_sample : Monitor → Sample → Monitor
record_sample m sample = record m { sample = sample }

-- `s.SampleValid` of `Snapshot`
unfoldable pub sample_valid : Monitor → Time → Bool
sample_valid m now =
    let age = sub now m.sample.at in
    not (is_zero m.sample.at) && (at_least age 0 && not (longer_than age (15 * second)))

-- `captureRequired`
unfoldable pub is_capture_required : Monitor → Bool
is_capture_required m =
    m.sample.capture_required
    || ((m.workers capture_url).enabled || (m.workers capture_files).enabled)

-- The number of a Go constant.
abbrev pub is_int : ℤ → ℕ → Bool
is_int (pos n) c = n == c
is_int (negsuc n) c = false

-- One round of the loop of `readySnapshot`.
unfoldable pub worker_check : Time → WorkerState → Result Reason (Unit {0})
worker_check now w =
    if not w.enabled || not w.required
    then ok tt
    else if not (is_int w.failure 0)
    then err worker_unavailable
    else if w.completed
    then ok tt
    else if not w.running
    then err worker_unavailable
    else (let age = sub now w.last_progress in
        if is_zero w.last_progress || not (at_least age 0)
        then err worker_stalled
        else if not (is_zero w.operation_deadline)
        then (if not (after w.operation_deadline now) then err worker_stalled else ok tt)
        else if longer_than age (15 * second)
        then err worker_stalled
        else ok tt)

-- The loop over the workers, from the index `i` on for `n` rounds.
unfoldable pub workers_check : Time → (ℕ → WorkerState) → ℕ → ℕ → Result Reason (Unit {0})
workers_check now workers i zero = ok tt
workers_check now workers i (suc n) = do
  worker_check now (workers i)
  workers_check now workers (i + 1) n

-- The switch on the phase.
abbrev pub phase_check : ℤ → Result Reason (Unit {0})
phase_check phase =
    if is_int phase 0
    then err is_starting
    else if is_int phase 2
    then err is_draining
    else if is_int phase 1
    then ok tt
    else err is_starting

-- `Ready`: `Snapshot` and `readySnapshot`.
unfoldable pub ready : Monitor → Time → Result Reason (Unit {0})
ready m now = do
  let capture = is_capture_required m
  let s = m.sample
  phase_check m.phase
  return_if (not (sample_valid m now)) sample_unavailable
  return_if (not s.database_up) database_unavailable
  return_if (not s.data_accessible) data_unavailable
  return_if (capture && not s.evidence_accessible) evidence_unavailable
  return_if
      (not (m.min_free_bytes == 0)
        && (ltb s.data_free_bytes m.min_free_bytes
            || (capture && ltb s.evidence_free_bytes m.min_free_bytes)))
      low_space
  workers_check now m.workers 0 worker_count
