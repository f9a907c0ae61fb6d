-- ===== src/Store/Files/Backed.antt =====
-- What the queue calls archived is in the archive.
use shard_lure.Common.{
  ℕ, ◌≡◌, refl, sym, subst, inl, inr, Bool, true, false, ◌&&◌, ◌||◌, not, List, [], ◌∷◌, Option,
  none, some, Bytes, eqb, eqb_refl, eq_of_eqb, to_lower, any, All, ◌==◌, ==_iff, Bool-cases, arith,
}
use shard_lure.Common.Time.{Time}
use shard_lure.Common.Result.{ok}
use shard_lure.Store.Files.{Job, State, update_jobs}
use shard_lure.Store.Files.Claim.{FileJob}
use shard_lure.Store.Files.Verdicts.{FileResult, Verdict, is_archived, verdict}
use shard_lure.Store.Files.Artifacts.{Artifact, find_artifact, new_artifact, archive}
use shard_lure.Store.Files.Complete.{
  Store, has_token, is_job, may_complete, is_fenced, fence, fence_rows, find_job, stored_hash,
  is_upload, clock_row, complete_row, completed_rows, settle_job,
}
use shard_lure.Store.Files.History.{
  Step, claims, completes, run_step, run, All-update_into, All-update_jobs, All-claim,
  complete-cases, held-cases,
}
use shard_lure.Store.Files.Keys.{UniqueIds, UniqueIds-run_step}
use shard_lure.Store.Files.Kept.{is_artifact_of, is_backed, is_found, has_hash, archive-Added}

-- The row of the job has the event and the hash of the row that the transaction read.
abbrev agrees : ℕ → Job → Job → Bool
agrees id q r =
    not (r.id == id) || r.event_id == q.event_id && eqb r.expected_sha256 q.expected_sha256

abbrev agrees_with : ℕ → Option Job → Job → Bool
agrees_with id none r = true
agrees_with id (some q) r = agrees id q r

absent-agrees :
    (id t : ℕ) (q : Job) (rows : List Job)
    → (t == id) ≡ true
    → All (λ s. (s.id == t) ≡ false) rows
    → All (λ r. agrees id q r ≡ true) rows
absent-agrees id t q [] e a = tt
absent-agrees id t q (r ∷ rows) e (x, a) = (ground (arith, e, x), absent-agrees id t q rows e a)

self_agrees : (id : ℕ) (r : Job) → agrees id r r ≡ true
self_agrees id r = ground (arith, eqb_refl r.expected_sha256)

find_job-agrees :
    (id : ℕ) (q : Job) (rows : List Job)
    → UniqueIds rows
    → find_job (is_job id) rows ≡ some q
    → All (λ r. agrees id q r ≡ true) rows
unfolding find_job
find_job-agrees id q [] u = λ e. tt
find_job-agrees id q (r ∷ rows) (x, u) = elim (Bool-cases (r.id == id)) [
  | inl alike ↦ rw alike (λ e. (
    ground (arith, alike, subst (λ o. agrees_with id o r ≡ true) e (self_agrees id r)),
    absent-agrees id r.id q rows alike x,
  ))
  | inr apart ↦ rw apart (λ e. (refl, find_job-agrees id q rows u e))
]

archived_hash :
    (st : State) (sha : Bytes) → is_archived st ≡ true → stored_hash st sha ≡ to_lower sha
archived_hash st sha h = ground (arith, h)

new-is_artifact_of :
    (q r : Job) (at : Time) (result : FileResult) (o : Option Artifact) (v : Verdict)
    → is_archived v.state ≡ true
    → eqb r.expected_sha256 q.expected_sha256 ≡ true
    → is_found (new_artifact q at result) o ≡ true
    → has_hash q result ≡ true
    → is_artifact_of (complete_row v result r) o ≡ true
new-is_artifact_of q r at result none v a e f h = cc
new-is_artifact_of q r at result (some b) v a e f h = rw (archived_hash v.state result.sha256 a) (
    ground (
      arith,
      e,
      f,
      h,
      eq_of_eqb r.expected_sha256 q.expected_sha256,
      eq_of_eqb b.sha256 (to_lower result.sha256),
      eq_of_eqb q.expected_sha256 (to_lower result.sha256),
      eqb_refl (to_lower result.sha256),
    ))

module _ (s : Store) (job : FileJob) (now : Time) (result : FileResult) where
  abbrev Backs : Job → Job → Type 0
  Backs q r = is_backed s.artifacts r && agrees job.id q r ≡ true

  completed_row-is_backed :
      (q r : Job) (at : Time) (kept : List Artifact)
      → archive (verdict q (is_upload s q) now result).state q at result s.artifacts ≡ ok kept
      → has_token job.id job.lease_token r ≡ true
      → Backs q r
      → is_backed kept (complete_row (verdict q (is_upload s q) now result) result r) ≡ true
  completed_row-is_backed q r at kept g t b =
      elim (Bool-cases (is_archived (verdict q (is_upload s q) now result).state)) [
        | inr e ↦ rw e refl
        | inl e ↦
            let v = verdict q (is_upload s q) now result in
            let added = (archive-Added v.state q at result s.artifacts kept g).1 e in
            let family : ℕ → Type 0 =
              λ t. is_found (new_artifact q at result) (find_artifact t kept) ≡ true in
            let there : is_found (new_artifact q at result) (find_artifact r.event_id kept) ≡ true =
              subst family (sym ((==_iff r.event_id q.event_id).0 (ground (arith, t, b))))
                added.0.1 in
            let row =
              new-is_artifact_of q r at result (find_artifact r.event_id kept) v e
                (ground (arith, t, b)) there added.1 in
            ground (arith, row)
      ]

  other-is_backed :
      (q r : Job) (at : Time) (kept : List Artifact)
      → archive (verdict q (is_upload s q) now result).state q at result s.artifacts ≡ ok kept
      → Backs q r
      → is_backed kept r ≡ true
  other-is_backed q r at kept g b =
      let keeps =
        (archive-Added (verdict q (is_upload s q) now result).state q at result s.artifacts kept
            g).0
          r in
      ground (arith, b, keeps)

  -- The rows that both hold.
  Backs-zip :
      (q : Job) (rows : List Job)
      → All (λ r. is_backed s.artifacts r ≡ true) rows
      → All (λ r. agrees job.id q r ≡ true) rows
      → All (Backs q) rows
  Backs-zip q [] a b = tt
  Backs-zip q (r ∷ rows) (x, a) (y, b) = (ground (arith, x, y), Backs-zip q rows a b)

  abbrev Backed : Store → Type 0
  Backed t = All (λ r. is_backed t.artifacts r ≡ true) t.jobs

  settle_job-Backed : UniqueIds s.jobs → Backed s → Backed (settle_job s job now result).0
  unfolding settle_job fence_rows completed_rows
  settle_job-Backed u b = elim (Bool-cases (any (may_complete job.id job.lease_token now) s.jobs)) [
    | inl e ↦ rw e (
        held-cases (λ t. Backed t.0) s job.id job.lease_token now result
          (find_job (is_job job.id) s.jobs) (λ m. b) (λ x y. b)
          (λ q o at kept g.
            All-update_into (Backs q) (λ r. is_backed kept r ≡ true)
              (has_token job.id job.lease_token)
              (complete_row (verdict q (is_upload s q) now result) result)
              (update_jobs (may_complete job.id job.lease_token now) (clock_row now) s.jobs)
              (λ r f x. completed_row-is_backed q r at kept g f x)
              (λ r f x. other-is_backed q r at kept g x)
              (All-update_jobs (Backs q) (may_complete job.id job.lease_token now) (clock_row now)
                s.jobs (λ r f x. x) (Backs-zip q s.jobs b (find_job-agrees job.id q s.jobs u o)))))
    | inr e ↦ rw e (
        All-update_jobs (λ r. is_backed s.artifacts r ≡ true) (is_fenced job.id job.lease_token now)
          (fence now) s.jobs (λ r f x. ground arith) b)
  ]

abbrev pub IsBacked : Store → Type 0
IsBacked s = All (λ r. is_backed s.artifacts r ≡ true) s.jobs

IsBacked-run_step : (s : Store) (c : Step) → UniqueIds s.jobs → IsBacked s → IsBacked (run_step s c)
unfolding run_step
IsBacked-run_step s (claims now limit lease) u b =
    All-claim (λ r. is_backed s.artifacts r ≡ true) now limit lease s.jobs (λ r e k. refl)
      (λ until r k. refl) (λ r e k. refl) b
IsBacked-run_step s (completes job now result) u b =
    complete-cases IsBacked s job now result b (λ v. settle_job-Backed s job now result u b)

-- The queue never claims an archive that is not there: from tables with unique job IDs in which it
-- holds, such as those without an archived job, after any calls of any workers every job that is
-- `archived` has the artifact of its event, fetched from Cowrie's files, with the hash, the size and
-- the path of the job, and with the hash that the event named, where it named one.
pub run-IsBacked :
    (s : Store) (steps : List Step) → UniqueIds s.jobs → IsBacked s → IsBacked (run s steps)
unfolding run
run-IsBacked s [] u b = b
run-IsBacked s (c ∷ steps) u b =
    run-IsBacked (run_step s c) steps (UniqueIds-run_step s c u) (IsBacked-run_step s c u b)
