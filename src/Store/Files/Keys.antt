-- ===== src/Store/Files/Keys.antt =====
-- The key of the table of jobs, which every call keeps.
use shard_lure.Common.{
  ℕ, ◌+◌, ◌≡◌, refl, inl, inr, Bool, false, ◌&&◌, List, [], ◌∷◌, any, All, ◌==◌, ℤ, to_ℕ,
  Bool-cases,
}
use shard_lure.Common.Time.{Time}
use shard_lure.Store.Files.{Job, is_leased, update_jobs}
use shard_lure.Store.Files.Claim.{
  FileJob, is_exhausted, exhaust, has_id, lease_job, reject, reject_all, settle, due_ids,
  lease_rows, invalid_ids, claim_limit, is_invalid, claim_rows, claim_file_captures,
}
use shard_lure.Store.Files.Verdicts.{FileResult, verdict}
use shard_lure.Store.Files.Complete.{
  Store, has_token, is_job, may_complete, is_fenced, fence, fence_rows, find_job, is_upload,
  clock_row, complete_row, completed_rows, settle_job,
}
use shard_lure.Store.Files.History.{
  Step, claims, completes, run_step, All-update_jobs, complete-cases, held-cases,
}

-- The key of the table: no two rows have the same ID.
abbrev pub UniqueIds : List Job → Type 0
UniqueIds [] = Unit
UniqueIds (r ∷ rows) = All (λ s. (s.id == r.id) ≡ false) rows × UniqueIds rows

UniqueIds-update_jobs :
    (p : Job → Bool) (f : Job → Job) (rows : List Job)
    → ((r : Job) → (f r).id ≡ r.id)
    → UniqueIds rows
    → UniqueIds (update_jobs p f rows)
unfolding update_jobs
UniqueIds-update_jobs p f [] h a = tt
UniqueIds-update_jobs p f (r ∷ rows) h (x, a) =
    let rest = UniqueIds-update_jobs p f rows h a in
    let apart = All-update_jobs (λ s. (s.id == r.id) ≡ false) p f rows (λ s e y. rw (h s) y) x in
    elim (Bool-cases (p r)) [ inl e ↦ rw (e, h r) (apart, rest) | inr e ↦ rw e (apart, rest) ]

UniqueIds-reject_all :
    (bad : List ℕ) (rows : List Job) → UniqueIds rows → UniqueIds (reject_all bad rows)
unfolding reject_all
UniqueIds-reject_all [] rows u = u
UniqueIds-reject_all (i ∷ bad) rows u =
    UniqueIds-reject_all bad (update_jobs (λ r. r.id == i && is_leased r.state) reject rows)
      (UniqueIds-update_jobs (λ r. r.id == i && is_leased r.state) reject rows (λ r. refl) u)

pub UniqueIds-lease_rows :
    (now until : Time) (ids : List ℕ) (rows : List Job)
    → UniqueIds rows
    → UniqueIds (lease_rows now until ids rows)
unfolding lease_rows settle
UniqueIds-lease_rows now until ids rows u =
    UniqueIds-update_jobs (has_id ids) (lease_job now until) (settle now rows) (λ r. refl)
      (UniqueIds-update_jobs (is_exhausted now) (exhaust now) rows (λ r. refl) u)

UniqueIds-claim :
    (rows : List Job) (now : Time) (limit lease : ℤ)
    → UniqueIds rows
    → UniqueIds (claim_file_captures rows now limit lease).0
unfolding claim_file_captures claim_rows
UniqueIds-claim rows now limit lease u = elim (Bool-cases (is_invalid now lease)) [
  | inl e ↦ rw e u
  | inr e ↦
      let until = now + to_ℕ lease in
      let ids = due_ids now (claim_limit limit) rows in
      let held = lease_rows now until ids rows in
      rw e (
        UniqueIds-reject_all (invalid_ids ids held) held
          (UniqueIds-lease_rows now until ids rows u))
]

UniqueIds-settle_job :
    (s : Store) (job : FileJob) (now : Time) (result : FileResult)
    → UniqueIds s.jobs
    → UniqueIds (settle_job s job now result).0.jobs
unfolding settle_job fence_rows completed_rows
UniqueIds-settle_job s job now result u =
    elim (Bool-cases (any (may_complete job.id job.lease_token now) s.jobs)) [
      | inl e ↦ rw e (
          held-cases (λ t. UniqueIds t.0.jobs) s job.id job.lease_token now result
            (find_job (is_job job.id) s.jobs) (λ m. u) (λ x y. u)
            (λ q o at kept g.
              UniqueIds-update_jobs (has_token job.id job.lease_token)
                (complete_row (verdict q (is_upload s q) now result) result)
                (update_jobs (may_complete job.id job.lease_token now) (clock_row now) s.jobs)
                (λ r. refl)
                (UniqueIds-update_jobs (may_complete job.id job.lease_token now) (clock_row now)
                  s.jobs (λ r. refl) u)))
      | inr e ↦ rw e (
          UniqueIds-update_jobs (is_fenced job.id job.lease_token now) (fence now) s.jobs
            (λ r. refl) u)
    ]

pub UniqueIds-run_step : (s : Store) (c : Step) → UniqueIds s.jobs → UniqueIds (run_step s c).jobs
unfolding run_step
UniqueIds-run_step s (claims now limit lease) u = UniqueIds-claim s.jobs now limit lease u
UniqueIds-run_step s (completes job now result) u =
    complete-cases (λ t. UniqueIds t.jobs) s job now result u
      (λ v. UniqueIds-settle_job s job now result u)
