-- ===== src/Observability/Monitor/Readiness.antt =====
-- When the monitor reports that the process is ready.
use shard_lure.Common.{
  ℕ, zero, suc, ◌+◌, ◌*◌, ◌≤◌, ◌<◌, ◌≡◌, ◌↔◌, ◌⊎◌, refl, subst, true, false, ◌==◌, ℤ, pos, negsuc,
  Bool-cases, inl, inr, arith,
}
use shard_lure.Common.Time.{Time, second}
use shard_lure.Common.Result.{Result-cases, ok}
use shard_lure.Observability.State.{worker_count, WorkerState, Monitor}
use shard_lure.Observability.Monitor.{
  is_int, sample_valid, is_capture_required, worker_check, workers_check, phase_check, ready,
}

-- A worker at work: its failure is none, and it has completed, or it runs, has made progress and
-- either is inside an operation with a deadline ahead or made its progress in the last 15 seconds.
abbrev pub IsAlive : Time → WorkerState → Type 0
IsAlive now w =
    (is_int w.failure 0 ≡ true)
    × ((w.completed ≡ true)
        ⊎ ((w.running ≡ true)
            × (0 < w.last_progress)
            × (w.last_progress ≤ now)
            × (((0 < w.operation_deadline) × (now < w.operation_deadline))
                ⊎ ((w.operation_deadline ≡ 0) × (now ≤ w.last_progress + 15 * second)))))

-- A worker that is enabled and required must be at work.
abbrev pub IsFit : Time → WorkerState → Type 0
IsFit now w = (w.enabled ≡ false) ⊎ ((w.required ≡ false) ⊎ IsAlive now w)

pub record IsReady (m : Monitor) (now : Time) : Type 0 where
  pub serving : m.phase ≡ pos 1
  pub sampled : (0 < m.sample.at) × (m.sample.at ≤ now) × (now ≤ m.sample.at + 15 * second)
  pub database : m.sample.database_up ≡ true
  pub reachable : m.sample.data_accessible ≡ true
  pub evidence : (is_capture_required m ≡ false) ⊎ (m.sample.evidence_accessible ≡ true)
  pub space :
      (m.min_free_bytes ≡ 0)
      ⊎ ((m.min_free_bytes ≤ m.sample.data_free_bytes)
          × ((is_capture_required m ≡ false) ⊎ (m.min_free_bytes ≤ m.sample.evidence_free_bytes)))
  pub fit : (i : ℕ) → i < worker_count → IsFit now (m.workers i)

worker_check-IsFit : (now : Time) (w : WorkerState) → (worker_check now w ≡ ok tt) ↔ IsFit now w
unfolding worker_check
worker_check-IsFit now w = (λ h. ground (arith, h), λ f. ground (arith, f))

workers-IsFit :
    (now : Time) (workers : ℕ → WorkerState) (i n : ℕ)
    → workers_check now workers i n ≡ ok tt
    → (j : ℕ) → i ≤ j
    → j < i + n
    → IsFit now (workers j)
unfolding workers_check
workers-IsFit now workers i zero h j le lt = absurd (omega (arith, le, lt))
workers-IsFit now workers i (suc n) h j le lt = elim (Result-cases (worker_check now (workers i))) [
  | inr (e, q) ↦ ground (arith, h, q)
  | inl (u, q) ↦ elim (Bool-cases (i == j)) [
    | inl same ↦
        let e : i ≡ j = ground (arith, same) in
        subst (λ k. IsFit now (workers k)) e ((worker_check-IsFit now (workers i)).0 q)
    | inr other ↦
        workers-IsFit now workers (i + 1) n (ground (arith, h, q)) j (ground (arith, other, le))
          (omega (arith, lt))
  ]
]

fit_workers :
    (now : Time) (workers : ℕ → WorkerState) (i n : ℕ)
    → ((j : ℕ) → i ≤ j → j < i + n → IsFit now (workers j))
    → workers_check now workers i n ≡ ok tt
unfolding workers_check
fit_workers now workers i zero f = refl
fit_workers now workers i (suc n) f =
    let here : worker_check now (workers i) ≡ ok tt =
      (worker_check-IsFit now (workers i)).1 (f i (omega arith) (omega arith)) in
    let later : workers_check now workers (i + 1) n ≡ ok tt =
      fit_workers now workers (i + 1) n (λ j le lt. f j (omega (arith, le)) (omega (arith, lt))) in
    ground (arith, here, later)

phase_serving : (p : ℤ) → (phase_check p ≡ ok tt) ↔ (p ≡ pos 1)
phase_serving (pos n) = (λ h. ground (arith, h), λ e. ground (arith, e))
phase_serving (negsuc n) = (λ h. cc, λ e. cc)

module _ (m : Monitor) (now : Time) where
  all_workers :
      (workers_check now m.workers 0 worker_count ≡ ok tt)
      ↔ ((i : ℕ) → i < worker_count → IsFit now (m.workers i))
  all_workers = (
    λ h i lt. workers-IsFit now m.workers 0 worker_count h i (omega arith) (omega (arith, lt)),
    λ f. fit_workers now m.workers 0 worker_count (λ j le lt. f j (omega (arith, lt))),
  )

  -- The process is ready exactly when it serves, a sample of at most 15 seconds shows the database
  -- and the data, the evidence too where capture needs it, the free space has its floor, and every
  -- worker that is enabled and required is at work.
  pub ready-IsReady : (ready m now ≡ ok tt) ↔ IsReady m now
  unfolding ready sample_valid
  ready-IsReady = (
    λ h. record {
      serving = ground (arith, h, phase_serving m.phase);
      sampled = ground (arith, h);
      database = ground (arith, h);
      reachable = ground (arith, h);
      evidence = ground (arith, h);
      space = ground (arith, h);
      fit = all_workers.0 (ground (arith, h));
    },
    λ r. ground (
      arith,
      r.sampled,
      r.database,
      r.reachable,
      r.evidence,
      r.space,
      (phase_serving m.phase).1 r.serving,
      all_workers.1 r.fit,
    ),
  )
