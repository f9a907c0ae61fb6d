-- ===== src/Store/Files/History.antt =====
-- Any number of workers on the queue: each call is one transaction, and the calls interleave freely,
-- each at its own reading of the clock. What discovery adds and retention removes are no steps.
use shard_lure.Common.{
  ℕ, ◌+◌, ◌≡◌, refl, inl, inr, Bool, true, false, ◌&&◌, not, List, [], ◌∷◌, Option, none, some, any,
  All, ◌==◌, ℤ, to_ℕ, Bool-cases, arith,
}
use shard_lure.Common.Time.{Time}
use shard_lure.Common.Result.{Result, ok, err}
use shard_lure.Store.Files.{
  Job, FileError, State, pending, retry, leased, archived, rejected, failed, claim_stale,
  invalid_observation, is_leased, update_jobs,
}
use shard_lure.Store.Files.Claim.{
  FileJob, is_exhausted, exhaust, has_id, lease_job, reject, reject_all, settle, due_ids,
  lease_rows, invalid_ids, claim_limit, is_invalid, claim_rows, claim_file_captures,
}
use shard_lure.Store.Files.Verdicts.{FileResult, is_valid, verdict}
use shard_lure.Store.Files.Artifacts.{
  Artifact, archive, new_artifact, keep_artifact, find_artifact, add_artifact,
}
use shard_lure.Store.Files.Complete.{
  Store, has_token, may_complete, is_fenced, fence, fence_rows, find_job, is_job, is_upload, commit,
  clock_row, complete_row, completed_rows, complete_at, complete_held, is_no_call, settle_job,
  complete_file_capture,
}

pub data Step : Type 0 where
  claims : Time → ℤ → ℤ → Step
  completes : FileJob → Time → FileResult → Step

unfoldable pub run_step : Store → Step → Store
run_step s (claims now limit lease) = record s {
  jobs = (claim_file_captures s.jobs now limit lease).0;
}
run_step s (completes job now result) = (complete_file_capture s job now result).0

unfoldable pub run : Store → List Step → Store
run s [] = s
run s (c ∷ steps) = run (run_step s c) steps

-- What an update makes true of the rows that it changes, and what the others have.
pub All-update_into :
    (P Q : Job → Type 0) (p : Job → Bool) (f : Job → Job) (rows : List Job)
    → ((r : Job) → p r ≡ true → P r → Q (f r))
    → ((r : Job) → p r ≡ false → P r → Q r)
    → All P rows
    → All Q (update_jobs p f rows)
unfolding update_jobs
All-update_into P Q p f [] h k a = tt
All-update_into P Q p f (r ∷ rows) h k (x, a) = elim (Bool-cases (p r)) [
  | inl e ↦ let rest = All-update_into P Q p f rows h k a in rw e (h r e x, rest)
  | inr e ↦ let rest = All-update_into P Q p f rows h k a in rw e (k r e x, rest)
]

module _ (P : Job → Type 0) where
  pub All-update_jobs :
      (p : Job → Bool) (f : Job → Job) (rows : List Job)
      → ((r : Job) → p r ≡ true → P r → P (f r))
      → All P rows
      → All P (update_jobs p f rows)
  All-update_jobs p f rows h a = All-update_into P P p f rows h (λ r e x. x) a

  pub All-reject_all :
      (ids : List ℕ) (rows : List Job)
      → ((r : Job) → is_leased r.state ≡ true → P r → P (reject r))
      → All P rows
      → All P (reject_all ids rows)
  unfolding reject_all
  All-reject_all [] rows h k = k
  All-reject_all (i ∷ ids) rows h k =
      All-reject_all ids (update_jobs (λ r. r.id == i && is_leased r.state) reject rows) h (
        All-update_jobs (λ r. r.id == i && is_leased r.state) reject rows
          (λ r e. h r (ground (arith, e))) k)

  -- What the three updates of a claim keep of a row, all rows keep.
  pub All-claim_rows :
      (now until : Time) (n : ℕ) (rows : List Job)
      → ((r : Job) → is_exhausted now r ≡ true → P r → P (exhaust now r))
      → ((r : Job) → P r → P (lease_job now until r))
      → ((r : Job) → is_leased r.state ≡ true → P r → P (reject r))
      → All P rows
      → All P (claim_rows rows now n until).0
  unfolding claim_rows lease_rows settle
  All-claim_rows now until n rows h l k a =
      All-reject_all
        (invalid_ids (due_ids now n rows) (lease_rows now until (due_ids now n rows) rows))
        (lease_rows now until (due_ids now n rows) rows) k
        (All-update_jobs (has_id (due_ids now n rows)) (lease_job now until) (settle now rows)
          (λ r e. l r) (All-update_jobs (is_exhausted now) (exhaust now) rows h a))

  pub All-claim :
      (now : Time) (limit lease : ℤ) (rows : List Job)
      → ((r : Job) → is_exhausted now r ≡ true → P r → P (exhaust now r))
      → ((until : Time) (r : Job) → P r → P (lease_job now until r))
      → ((r : Job) → is_leased r.state ≡ true → P r → P (reject r))
      → All P rows
      → All P (claim_file_captures rows now limit lease).0
  unfolding claim_file_captures
  All-claim now limit lease rows h l k a = elim (Bool-cases (is_invalid now lease)) [
    | inl e ↦ rw e a
    | inr e ↦ rw e (
        All-claim_rows now (now + to_ℕ lease) (claim_limit limit) rows h (l (now + to_ℕ lease)) k a)
  ]

-- A call that a completion does not refuse outright: what follows is its transaction.
pub complete-cases :
    (Q : Store → Type 0) (s : Store) (job : FileJob) (now : Time) (result : FileResult)
    → Q s
    → (is_valid result ≡ true → Q (settle_job s job now result).0)
    → Q (complete_file_capture s job now result).0
unfolding complete_file_capture
complete-cases Q s job now result k h = elim (Bool-cases (is_valid result)) [
  | inr e ↦ rw e k
  | inl e ↦ elim (Bool-cases (is_no_call job now)) [ inl f ↦ rw (e, f) k | inr f ↦ rw (e, f) (h e) ]
]

abbrev pub is_stale : FileError → Bool
is_stale claim_stale = true
is_stale _ = false

abbrev pub Outcome : Type 0
Outcome = Store × Result FileError (Unit {0})

not_stale : Result FileError (List Artifact) → Bool
not_stale (ok rows) = true
not_stale (err e) = not (is_stale e)

keep_not_stale :
    (new : Artifact) (rows : List Artifact) (o : Option Artifact)
    → not_stale (keep_artifact o new rows) ≡ true
unfolding not_stale
keep_not_stale new rows none = refl
keep_not_stale new rows (some old) = ground arith

archive-not_stale :
    (st : State) (q : Job) (at : Time) (result : FileResult) (rows : List Artifact)
    → not_stale (archive st q at result rows) ≡ true
unfolding not_stale add_artifact
archive-not_stale archived q at result rows =
    ground (arith, keep_not_stale (new_artifact q at result) rows (find_artifact q.event_id rows))
archive-not_stale pending q at result rows = refl
archive-not_stale retry q at result rows = refl
archive-not_stale leased q at result rows = refl
archive-not_stale rejected q at result rows = refl
archive-not_stale failed q at result rows = refl

-- What may be shown of the outcome of a completion of a job under its live lease, which read the row
-- `o`: it leaves the tables and is not refused as stale, or it is the two updates of its row with the
-- verdict on the row that it read, and the artifact.
module _ (Q : Outcome → Type 0) (s : Store) (id token : ℕ) (now : Time) (result : FileResult) where
  abbrev Refused : Type 0
  Refused = (e : FileError) → is_stale e ≡ false → Q (s, err e)

  abbrev Accepted : Job → Type 0
  Accepted q =
      (at : Time) (kept : List Artifact)
      → archive (verdict q (is_upload s q) now result).state q at result s.artifacts ≡ ok kept
      → Q (
        record s {
          jobs = completed_rows id token now (verdict q (is_upload s q) now result) result s.jobs;
          artifacts = kept;
        },
        ok tt,
      )

  commit-cases :
      (rows : List Job) (a : Result FileError (List Artifact))
      → not_stale a ≡ true
      → Refused
      → ((kept : List Artifact)
          → a ≡ ok kept
          → Q (record s { jobs = rows; artifacts = kept }, ok tt))
      → Q (commit s rows a)
  unfolding not_stale
  commit-cases rows (ok kept) n k h = h kept refl
  commit-cases rows (err e) n k h = k e (ground (arith, n))

  at-cases :
      (q : Job) (o : Option Time) → Refused → Accepted q → Q (complete_at s id token now result q o)
  at-cases q none k h = k invalid_observation refl
  at-cases q (some at) k h =
      commit-cases
        (completed_rows id token now (verdict q (is_upload s q) now result) result s.jobs)
        (archive (verdict q (is_upload s q) now result).state q at result s.artifacts)
        (archive-not_stale (verdict q (is_upload s q) now result).state q at result s.artifacts) k
        (h at)

  pub held-cases :
      (o : Option Job)
      → (o ≡ none → Q (s, err claim_stale))
      → Refused
      → ((q : Job) → o ≡ some q → Accepted q)
      → Q (complete_held s id token now result o)
  held-cases none m k h = m refl
  held-cases (some q) m k h = at-cases q q.observed_at k (h q refl)

module _ (P : Job → Type 0) (s : Store) (job : FileJob) (now : Time) (result : FileResult) where
  -- The transaction keeps what the fence, the clock and the last update keep of a row.
  pub All-settle_job :
      ((r : Job) → is_fenced job.id job.lease_token now r ≡ true → P r → P (fence now r))
      → ((r : Job) → may_complete job.id job.lease_token now r ≡ true → P r → P (clock_row now r))
      → ((q r : Job)
          → has_token job.id job.lease_token r ≡ true
          → P r
          → P (complete_row (verdict q (is_upload s q) now result) result r))
      → All P s.jobs
      → All P (settle_job s job now result).0.jobs
  unfolding settle_job fence_rows completed_rows
  All-settle_job f c l a =
      elim (Bool-cases (any (may_complete job.id job.lease_token now) s.jobs)) [
        | inl e ↦ rw e (
            held-cases (λ t. All P t.0.jobs) s job.id job.lease_token now result
              (find_job (is_job job.id) s.jobs) (λ m. a) (λ x y. a)
              (λ q o at kept g.
                All-update_jobs P (has_token job.id job.lease_token)
                  (complete_row (verdict q (is_upload s q) now result) result)
                  (update_jobs (may_complete job.id job.lease_token now) (clock_row now) s.jobs)
                  (l q)
                  (All-update_jobs P (may_complete job.id job.lease_token now) (clock_row now)
                    s.jobs c a)))
        | inr e ↦
            rw e (All-update_jobs P (is_fenced job.id job.lease_token now) (fence now) s.jobs f a)
      ]
