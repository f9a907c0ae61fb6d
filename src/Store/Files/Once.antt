-- ===== src/Store/Files/Once.antt =====
-- One attempt, one answer.
use shard_lure.Common.{ℕ, ◌≡◌, ◌≢◌, refl, true, false, ◌&&◌, List, [], ◌∷◌, any, All, ℤ, arith}
use shard_lure.Common.Time.{Time}
use shard_lure.Common.Result.{ok}
use shard_lure.Store.Files.{Job}
use shard_lure.Store.Files.Claim.{FileJob, claim_file_captures}
use shard_lure.Store.Files.Verdicts.{FileResult, is_valid}
use shard_lure.Store.Files.Complete.{
  Store, may_complete, is_upload, is_no_call, settle_job, complete_file_capture,
}
use shard_lure.Store.Files.History.{
  Step, claims, completes, run_step, run, All-claim, complete-cases, All-settle_job,
}
use shard_lure.Store.Files.Spent.{
  is_issued, Issued, Spent, Issued-run, Spent-run, is_timed, is_answer, settle_job-Spent,
  verdict-is_leased,
}
use shard_lure.Store.Files.Keys.{UniqueIds}
use shard_lure.Store.Files.Issued.{has_job, jobs_of, claim-Issued}

abbrev pub Timed : List Job → Type 0
Timed = All (λ r. is_timed r ≡ true)

-- Every row under a lease has its two times, which the calls keep.
Timed-run_step : (s : Store) (c : Step) → Timed s.jobs → Timed (run_step s c).jobs
unfolding run_step
Timed-run_step s (claims now limit lease) h =
    All-claim (λ r. is_timed r ≡ true) now limit lease s.jobs (λ r e k. refl) (λ until r k. refl)
      (λ r e k. refl) h
Timed-run_step s (completes job now result) h =
    complete-cases (λ t. Timed t.jobs) s job now result h
      (λ v.
        All-settle_job (λ r. is_timed r ≡ true) s job now result (λ r e k. ground arith)
          (λ r e k. k) (λ q r e k. ground (arith, verdict-is_leased q (is_upload s q) now result v))
          h)

Timed-run : (s : Store) (steps : List Step) → Timed s.jobs → Timed (run s steps).jobs
unfolding run
Timed-run s [] h = h
Timed-run s (c ∷ steps) h = Timed-run (run_step s c) steps (Timed-run_step s c h)

Tracked-zip :
    (id token : ℕ) (rows : List Job)
    → Issued id token rows
    → Timed rows
    → All (λ r. is_issued id token r && is_timed r ≡ true) rows
Tracked-zip id token [] a b = tt
Tracked-zip id token (r ∷ rows) (x, a) (y, b) =
    (ground (arith, x, y), Tracked-zip id token rows a b)

Spent-any :
    (id token : ℕ) (now : Time) (rows : List Job)
    → Spent id token rows
    → any (may_complete id token now) rows ≡ false
unfolding may_complete
Spent-any id token now [] a = refl
Spent-any id token now (r ∷ rows) (x, a) = ground (arith, x, Spent-any id token now rows a)

-- What a call with a spent token gets.
Spent-refused :
    (s : Store) (job : FileJob) (now : Time) (result : FileResult)
    → Spent job.id job.lease_token s.jobs
    → (complete_file_capture s job now result).1 ≢ ok tt
unfolding complete_file_capture settle_job
Spent-refused s job now result a h =
    ground (arith, h, Spent-any job.id job.lease_token now s.jobs a)

complete-Spent :
    (s : Store) (job : FileJob) (now : Time) (result : FileResult)
    → is_valid result ≡ true
    → is_no_call job now ≡ false
    → Issued job.id job.lease_token s.jobs
    → Timed s.jobs
    → is_answer (complete_file_capture s job now result).1 ≡ true
    → Spent job.id job.lease_token (complete_file_capture s job now result).0.jobs
unfolding complete_file_capture
complete-Spent s job now result v n a b =
    rw (v, n) (settle_job-Spent s job now result v (Tracked-zip job.id job.lease_token s.jobs a b))

-- The answer to a completion is final: a claim hands a job out, from a table with unique IDs whose
-- leased rows have their times; after any calls of any workers a completion of it, with a valid
-- result at a valid time, is accepted or refused as stale; then after any further calls no
-- completion with that token is accepted, even at a clock that was set back into the lease.
pub answered_once :
    (s : Store) (now : Time) (limit lease : ℤ) (job : FileJob) (before after : List Step)
    (at later : Time) (result other : FileResult)
    → UniqueIds s.jobs
    → Timed s.jobs
    → has_job job.id job.lease_token (jobs_of (claim_file_captures s.jobs now limit lease).1) ≡ true
    → is_valid result ≡ true
    → is_no_call job at ≡ false
    → is_answer (complete_file_capture (run s (claims now limit lease ∷ before)) job at result).1
      ≡ true
    → (complete_file_capture
        (run
          (complete_file_capture (run s (claims now limit lease ∷ before)) job at result).0
          after)
        job
        later
        other).1
      ≢ ok tt
unfolding run run_step
answered_once s now limit lease job before after at later result other u t h v n a =
    let first = run_step s (claims now limit lease) in
    let waited = run first before in
    Spent-refused (run (complete_file_capture waited job at result).0 after) job later other (
      Spent-run job.id job.lease_token (complete_file_capture waited job at result).0 after (
        complete-Spent waited job at result v n
          (Issued-run job.id job.lease_token first before
            (claim-Issued job.id job.lease_token s.jobs now limit lease u h))
          (Timed-run first before (Timed-run_step s (claims now limit lease) t)) a))
