-- ===== src/Store/Files/Spent.antt =====
-- The token of a job: it answers for one attempt, once, on whatever clock.
use shard_lure.Common.{
  ℕ, ◌≡◌, ◌≢◌, inl, inr, Bool, true, false, ◌&&◌, ◌||◌, not, List, [], ◌∷◌, none, is_some, any, All,
  leb, ◌==◌, Bool-cases, arith,
}
use shard_lure.Common.Time.{Time}
use shard_lure.Common.Result.{Result, ok, err}
use shard_lure.Store.Files.{Job, State, Reason, FileError, is_leased, update_jobs}
use shard_lure.Store.Files.Claim.{FileJob}
use shard_lure.Store.Files.Verdicts.{
  FileResult, exhausted_or, without_upload, is_valid, is_valid_as, verdict,
}
use shard_lure.Store.Files.Complete.{
  Store, has_token, may_complete, is_fenced, fence, fence_rows, find_job, is_job, is_upload,
  clock_row, complete_row, completed_rows, settle_job,
}
use shard_lure.Store.Files.History.{
  Step, claims, completes, run_step, run, All-update_into, All-update_jobs, All-claim, is_stale,
  complete-cases, held-cases, All-settle_job,
}

-- The row of the job has reached the token.
abbrev pub is_issued : ℕ → ℕ → Job → Bool
is_issued id token r = not (r.id == id) || leb token r.lease_token

-- The token opens the row no more, now and later.
abbrev pub is_spent : ℕ → ℕ → Job → Bool
is_spent id token r = is_issued id token r && not (has_token id token r)

-- The state that a valid result leads to is not `leased`.
without_upload-is_leased :
    (st : State) (why : Reason) (upload : Bool) (result : FileResult)
    → is_valid_as st result ≡ true
    → is_leased (without_upload st why upload) ≡ false
unfolding is_valid_as
without_upload-is_leased st why upload result h = ground (arith, h)

exhausted-is_leased :
    (n : ℕ) (st : State) (why : Reason) (now : Time)
    → is_leased st ≡ false
    → is_leased (exhausted_or n st why now).state ≡ false
exhausted-is_leased n st why now h = ground (arith, h)

pub verdict-is_leased :
    (q : Job) (upload : Bool) (now : Time) (result : FileResult)
    → is_valid result ≡ true
    → is_leased (verdict q upload now result).state ≡ false
unfolding verdict is_valid_as
verdict-is_leased q upload now result h =
    exhausted-is_leased q.attempts (without_upload result.status result.reason upload) result.reason
      now (without_upload-is_leased result.status result.reason upload result h)

module _ (id token : ℕ) where
  abbrev pub Issued : List Job → Type 0
  Issued = All (λ r. is_issued id token r ≡ true)

  abbrev pub Spent : List Job → Type 0
  Spent = All (λ r. is_spent id token r ≡ true)

  Issued-run_step : (s : Store) (c : Step) → Issued s.jobs → Issued (run_step s c).jobs
  unfolding run_step
  Issued-run_step s (claims now limit lease) h =
      All-claim (λ r. is_issued id token r ≡ true) now limit lease s.jobs
        (λ r e k. ground (arith, k)) (λ until r k. ground (arith, k)) (λ r e k. k) h
  Issued-run_step s (completes job now result) h =
      complete-cases (λ t. Issued t.jobs) s job now result h
        (λ e.
          All-settle_job (λ r. is_issued id token r ≡ true) s job now result
            (λ r e k. ground (arith, k)) (λ r e k. k) (λ q r e k. k) h)

  Spent-run_step : (s : Store) (c : Step) → Spent s.jobs → Spent (run_step s c).jobs
  unfolding run_step
  Spent-run_step s (claims now limit lease) h =
      All-claim (λ r. is_spent id token r ≡ true) now limit lease s.jobs
        (λ r e k. ground (arith, k)) (λ until r k. ground (arith, k)) (λ r e k. ground (arith, k)) h
  Spent-run_step s (completes job now result) h =
      complete-cases (λ t. Spent t.jobs) s job now result h
        (λ v.
          All-settle_job (λ r. is_spent id token r ≡ true) s job now result
            (λ r e k. ground (arith, k)) (λ r e k. k)
            (λ q r e k. ground (arith, k, verdict-is_leased q (is_upload s q) now result v)) h)

  pub Issued-run : (s : Store) (steps : List Step) → Issued s.jobs → Issued (run s steps).jobs
  unfolding run
  Issued-run s [] h = h
  Issued-run s (c ∷ steps) h = Issued-run (run_step s c) steps (Issued-run_step s c h)

  pub Spent-run : (s : Store) (steps : List Step) → Spent s.jobs → Spent (run s steps).jobs
  unfolding run
  Spent-run s [] h = h
  Spent-run s (c ∷ steps) h = Spent-run (run_step s c) steps (Spent-run_step s c h)

-- A row under a lease has its two times.
abbrev pub is_timed : Job → Bool
is_timed r = not (is_leased r.state) || is_some r.lease_started_at && is_some r.lease_until

-- The answers that settle an attempt: it is recorded, or it came too late.
abbrev pub is_answer : Result FileError (Unit {0}) → Bool
is_answer (ok u) = true
is_answer (err e) = is_stale e

refused-is_fenced :
    (id token : ℕ) (now : Time) (r : Job)
    → is_issued id token r && is_timed r ≡ true
    → may_complete id token now r ≡ false
    → is_fenced id token now r ≡ false
    → is_spent id token r ≡ true
unfolding may_complete is_fenced
refused-is_fenced id token now r h k f = ground (arith, h, k, f)

fenced-is_spent :
    (id token : ℕ) (now : Time) (r : Job)
    → is_issued id token r && is_timed r ≡ true
    → is_spent id token (fence now r) ≡ true
fenced-is_spent id token now r h = ground (arith, h)

All-not_any :
    (P : Job → Type 0) (p : Job → Bool) (rows : List Job)
    → any p rows ≡ false
    → All P rows
    → All (λ r. P r × (p r ≡ false)) rows
All-not_any P p [] h a = tt
All-not_any P p (r ∷ rows) h (x, a) =
    ((x, ground (arith, h)), All-not_any P p rows (ground (arith, h)) a)

found :
    (id token : ℕ) (now : Time) (rows : List Job)
    → any (may_complete id token now) rows ≡ true
    → find_job (is_job id) rows ≢ none
unfolding find_job may_complete
found id token now [] h k = cc
found id token now (r ∷ rows) h k = ground (arith, h, found id token now rows)

module _ (s : Store) (job : FileJob) (now : Time) (result : FileResult) where
  abbrev Tracked : Job → Type 0
  Tracked r = is_issued job.id job.lease_token r && is_timed r ≡ true

  fence_rows-Spent :
      any (may_complete job.id job.lease_token now) s.jobs ≡ false
      → All Tracked s.jobs
      → Spent job.id job.lease_token (fence_rows s job.id job.lease_token now).jobs
  unfolding fence_rows
  fence_rows-Spent h a =
      All-update_into (λ r. Tracked r × (may_complete job.id job.lease_token now r ≡ false))
        (λ r. is_spent job.id job.lease_token r ≡ true) (is_fenced job.id job.lease_token now)
        (fence now) s.jobs (λ r e x. fenced-is_spent job.id job.lease_token now r x.0)
        (λ r e x. refused-is_fenced job.id job.lease_token now r x.0 x.1 e)
        (All-not_any Tracked (may_complete job.id job.lease_token now) s.jobs h a)

  completed_rows-Spent :
      (q : Job)
      → is_valid result ≡ true
      → All Tracked s.jobs
      → Spent job.id job.lease_token (
          completed_rows job.id job.lease_token now
            (verdict q (is_upload s q) now result)
            result
            s.jobs)
  unfolding completed_rows
  completed_rows-Spent q v a =
      All-update_into Tracked (λ r. is_spent job.id job.lease_token r ≡ true)
        (has_token job.id job.lease_token)
        (complete_row (verdict q (is_upload s q) now result) result)
        (update_jobs (may_complete job.id job.lease_token now) (clock_row now) s.jobs)
        (λ r e x. ground (arith, e, x, verdict-is_leased q (is_upload s q) now result v))
        (λ r e x. ground (arith, e, x))
        (All-update_jobs Tracked (may_complete job.id job.lease_token now) (clock_row now) s.jobs
          (λ r e x. x) a)

  pub settle_job-Spent :
      is_valid result ≡ true
      → All Tracked s.jobs
      → is_answer (settle_job s job now result).1 ≡ true
      → Spent job.id job.lease_token (settle_job s job now result).0.jobs
  unfolding settle_job
  settle_job-Spent v a = elim (Bool-cases (any (may_complete job.id job.lease_token now) s.jobs)) [
    | inl e ↦ rw e (
        held-cases (λ t. is_answer t.1 ≡ true → Spent job.id job.lease_token t.0.jobs) s job.id
          job.lease_token now result (find_job (is_job job.id) s.jobs)
          (λ m. absurd (found job.id job.lease_token now s.jobs e m))
          (λ x y z. ground (arith, y, z)) (λ q o at kept g z. completed_rows-Spent q v a))
    | inr e ↦ rw e (λ z. fence_rows-Spent e a)
  ]
