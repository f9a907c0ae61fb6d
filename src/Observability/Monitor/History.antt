-- ===== src/Observability/Monitor/History.antt =====
-- The monitor through any history of its operations: the phases, the workers and the counters.
use shard_lure.Common.{
  Bool, ◌<◌, ℕ, ◌+◌, min, ◌≤◌, ◌≡◌, refl, false, ◌&&◌, List, [], ◌∷◌, ◌==◌, ℤ, pos, negsuc, to_ℕ,
  if◌then◌else◌, Bool-cases, inl, inr, arith,
}
use shard_lure.Common.Time.{Time}
use shard_lure.Common.Result.{err}
use shard_lure.Observability.State.{draining, is_draining, Sample, WorkerState, Monitor}
use shard_lure.Observability.Monitor.{
  int_less, set_phase, is_contradictory, set_worker, max_uint64, add_counter, observe_ingest,
  observe_provider, observe_durable_share, record_sample, ready,
}

-- One call on the monitor.
pub data Call : Type 0 where
  phase_set : ℤ → Call
  worker_set : ℤ → WorkerState → Call
  ingest_seen : ℤ → ℤ → ℕ → Call
  provider_seen : ℤ → ℤ → ℤ → Call
  share_seen : ℤ → ℤ → ℕ → Call
  sampled : Sample → Call

pub run_call : Monitor → Call → Monitor
run_call m (phase_set phase) = (set_phase m phase).1
run_call m (worker_set worker s) = (set_worker m worker s).1
run_call m (ingest_seen source outcome n) = (observe_ingest m source outcome n).1
run_call m (provider_seen provider operation outcome) =
    (observe_provider m provider operation outcome).1
run_call m (share_seen provider outcome n) = (observe_durable_share m provider outcome n).1
run_call m (sampled s) = record_sample m s

pub run : Monitor → List Call → Monitor
run m [] = m
run m (c ∷ calls) = run (run_call m c) calls

int_less_irrefl : (a : ℤ) → int_less a a ≡ false
int_less_irrefl (pos n) = ground arith
int_less_irrefl (negsuc n) = ground arith

int_less_trans : (a b c : ℤ) → int_less a b ≡ false → int_less b c ≡ false → int_less a c ≡ false
int_less_trans (pos a) (pos b) (pos c) h k = ground (arith, h, k)
int_less_trans (pos a) b (negsuc c) h k = refl
int_less_trans (pos a) (negsuc b) (pos c) h k = cc
int_less_trans (negsuc a) (pos b) c h k = cc
int_less_trans (negsuc a) (negsuc b) (pos c) h k = cc
int_less_trans (negsuc a) (negsuc b) (negsuc c) h k = ground (arith, h, k)

drained_call : (m : Monitor) (c : Call) → m.phase ≡ draining → (run_call m c).phase ≡ draining
unfolding run_call set_phase set_worker observe_ingest observe_provider observe_durable_share
    record_sample
drained_call m (phase_set (pos n)) h = ground (arith, h)
drained_call m (phase_set (negsuc n)) h = h
drained_call m (worker_set worker s) h = ground (arith, h)
drained_call m (ingest_seen source outcome n) h = ground (arith, h)
drained_call m (provider_seen provider operation outcome) h = ground (arith, h)
drained_call m (share_seen provider outcome n) h = ground (arith, h)
drained_call m (sampled s) h = h

drained_run :
    (m : Monitor) (calls : List Call) → m.phase ≡ draining → (run m calls).phase ≡ draining
unfolding run
drained_run m [] h = h
drained_run m (c ∷ calls) h = drained_run (run_call m c) calls (drained_call m c h)

-- Draining is final: once the process drains, no calls bring it back to ready, at whatever time it
-- is asked; it reports that it drains.
pub drained_ready :
    (m : Monitor) (calls : List Call) (now : Time)
    → m.phase ≡ draining
    → ready (run m calls) now ≡ err is_draining
unfolding ready
drained_ready m calls now h = rw (drained_run m calls h) refl

-- `addCounter` is the addition that stops at the largest number.
pub add_counter_lem :
    (value n : ℕ) → value ≤ max_uint64 → add_counter value n ≡ min (value + n) max_uint64
unfolding add_counter
add_counter_lem value n h = ground (arith, h)

abbrev is_number : ℤ → ℕ → Bool
is_number (pos i) n = i == n
is_number (negsuc i) n = false

-- The events of one source with one outcome, over all the calls.
unfoldable pub seen : ℕ → ℕ → List Call → ℕ
seen s o [] = 0
seen s o (ingest_seen source outcome n ∷ calls) =
    if is_number source s && is_number outcome o then n + seen s o calls else seen s o calls
seen s o (c ∷ calls) = seen s o calls

counter_call :
    (m : Monitor) (c : Call) (calls : List Call) (s o : ℕ)
    → s < 2
    → o < 8
    → m.ingest s o ≤ max_uint64
    → ((run_call m c).ingest s o ≤ max_uint64)
      × (min ((run_call m c).ingest s o + seen s o calls) max_uint64
          ≡ min (m.ingest s o + seen s o (c ∷ calls)) max_uint64)
unfolding run_call seen set_phase set_worker observe_ingest observe_provider observe_durable_share
    record_sample
counter_call m (phase_set phase) calls s o k l h = ground (arith, h)
counter_call m (worker_set worker w) calls s o k l h = ground (arith, h)
counter_call m (ingest_seen (negsuc i) outcome n) calls s o k l h = ground (arith, h)
counter_call m (ingest_seen (pos i) (negsuc j) n) calls s o k l h = ground (arith, h)
counter_call m (ingest_seen (pos i) (pos j) n) calls s o k l h =
    ground (arith, h, k, l, add_counter_lem (m.ingest s o) n h)
counter_call m (provider_seen provider operation outcome) calls s o k l h = ground (arith, h)
counter_call m (share_seen provider outcome n) calls s o k l h = ground (arith, h)
counter_call m (sampled sample) calls s o k l h = ground (arith, h)

-- Each of the 2 times 8 ingest counters, if it holds a 64-bit integer at first, adds the events of its
-- source and its outcome exactly, up to the largest number that it can hold: whatever else is called
-- in between and in whatever order, nothing is lost, counted twice or wrapped around.
pub counter_run :
    (m : Monitor) (calls : List Call) (s o : ℕ)
    → s < 2
    → o < 8
    → m.ingest s o ≤ max_uint64
    → (run m calls).ingest s o ≡ min (m.ingest s o + seen s o calls) max_uint64
unfolding run seen
counter_run m [] s o k l h = omega (arith, h)
counter_run m (c ∷ calls) s o k l h =
    let (fits, same) = counter_call m c calls s o k l h in
    omega (arith, counter_run (run_call m c) calls s o k l fits, same)

phase_call : (m : Monitor) (c : Call) → int_less (run_call m c).phase m.phase ≡ false
unfolding run_call set_phase set_worker observe_ingest observe_provider observe_durable_share
    record_sample
phase_call m (phase_set phase) = ground (arith, int_less_irrefl m.phase)
phase_call m (worker_set worker s) = ground (arith, int_less_irrefl m.phase)
phase_call m (ingest_seen source outcome n) = ground (arith, int_less_irrefl m.phase)
phase_call m (provider_seen provider operation outcome) = ground (arith, int_less_irrefl m.phase)
phase_call m (share_seen provider outcome n) = ground (arith, int_less_irrefl m.phase)
phase_call m (sampled sample) = int_less_irrefl m.phase

-- The phase never goes back, whatever is called.
pub phase_run : (m : Monitor) (calls : List Call) → int_less (run m calls).phase m.phase ≡ false
unfolding run
phase_run m [] = int_less_irrefl m.phase
phase_run m (c ∷ calls) =
    int_less_trans (run (run_call m c) calls).phase (run_call m c).phase m.phase
      (phase_run (run_call m c) calls) (phase_call m c)

-- Every stored worker state makes sense.
abbrev pub IsConsistent : Monitor → Type 0
IsConsistent m = (w : ℕ) → is_contradictory w (m.workers w) ≡ false

workers_call : (m : Monitor) (c : Call) → IsConsistent m → IsConsistent (run_call m c)
unfolding run_call set_phase set_worker observe_ingest observe_provider observe_durable_share
    record_sample
workers_call m (phase_set phase) k w = ground (arith, k w)
workers_call m (worker_set worker s) k w = elim (Bool-cases (w == to_ℕ worker)) [
  | inl same ↦
      (let e : w ≡ to_ℕ worker = ground (arith, same) in rw e (ground (arith, k (to_ℕ worker))))
  | inr other ↦ ground (arith, other, k w)
]
workers_call m (ingest_seen source outcome n) k w = ground (arith, k w)
workers_call m (provider_seen provider operation outcome) k w = ground (arith, k w)
workers_call m (share_seen provider outcome n) k w = ground (arith, k w)
workers_call m (sampled sample) k w = k w

-- No call stores a worker that contradicts itself: at every time, a disabled worker neither runs nor
-- is required nor has completed, and only the backfills complete, and then no longer run.
pub run-IsConsistent :
    (m : Monitor) (calls : List Call) → IsConsistent m → IsConsistent (run m calls)
unfolding run
run-IsConsistent m [] k = k
run-IsConsistent m (c ∷ calls) k = run-IsConsistent (run_call m c) calls (workers_call m c k)
