-- ===== src/Store/Files/Issued.antt =====
-- The jobs that a claim hands out carry the tokens that their rows have reached.
use shard_lure.Common.{
  ℕ, ◌+◌, ◌≡◌, refl, subst, inl, inr, ==_iff, Bool, true, false, ◌&&◌, ◌||◌, List, [], ◌∷◌, Option,
  none, some, any, All, ◌==◌, ℤ, to_ℕ, Bool-cases, if◌then◌else◌, arith,
}
use shard_lure.Common.Time.{Time}
use shard_lure.Common.Result.{Result, ok, err}
use shard_lure.Store.Files.{Job, FileError}
use shard_lure.Store.Files.Claim.{
  FileJob, has_id, job_at, add_job, scan_job, returned, insert_job, sort_jobs, due_ids, lease_rows,
  invalid_ids, claim_limit, is_invalid, claim_rows, claim_file_captures,
}
use shard_lure.Store.Files.Complete.{}
use shard_lure.Store.Files.History.{All-reject_all}
use shard_lure.Store.Files.Keys.{UniqueIds, UniqueIds-lease_rows}
use shard_lure.Store.Files.Spent.{is_issued, Issued}

-- The list holds the job with this token.
abbrev pub has_job : ℕ → ℕ → List FileJob → Bool
has_job id token jobs = any (λ j. j.id == id && j.lease_token == token) jobs

has_job-insert_job :
    (id token : ℕ) (j : FileJob) (jobs : List FileJob)
    → has_job id token (insert_job j jobs) ≡ has_job id token (j ∷ jobs)
unfolding insert_job
has_job-insert_job id token j [] = refl
has_job-insert_job id token j (k ∷ jobs) = ground (arith, has_job-insert_job id token j jobs)

has_job-sort_jobs :
    (id token : ℕ) (jobs : List FileJob) → has_job id token (sort_jobs jobs) ≡ has_job id token jobs
unfolding sort_jobs
has_job-sort_jobs id token [] = refl
has_job-sort_jobs id token (j ∷ jobs) =
    ground (arith, has_job-insert_job id token j (sort_jobs jobs), has_job-sort_jobs id token jobs)

has_job-add_job :
    (id token : ℕ) (r : Job) (o : Option Time) (jobs : List FileJob)
    → has_job id token (add_job (job_at r o) jobs) ≡ true
    → (r.id == id && r.lease_token == token || has_job id token jobs) ≡ true
has_job-add_job id token r none jobs h = ground (arith, h)
has_job-add_job id token r (some at) jobs h = h

module _ (id token : ℕ) (ids : List ℕ) where
  -- A job comes from a row with its token.
  has_job-returned :
      (r : Job) (rows : List Job)
      → has_job id token (returned ids (r ∷ rows)) ≡ true
      → (r.id == id && r.lease_token == token || has_job id token (returned ids rows)) ≡ true
  unfolding returned scan_job
  has_job-returned r rows h =
      let family : Bool → Type 0 = λ b.
        has_job id token
          (if b then add_job (job_at r r.observed_at) (returned ids rows) else returned ids rows)
        ≡ true in
      elim (Bool-cases (has_id ids r)) [
        | inl e ↦ has_job-add_job id token r r.observed_at (returned ids rows) (subst family e h)
        | inr e ↦ ground (arith, subst family e h)
      ]

  absent-Issued :
      (t : ℕ) (rows : List Job)
      → All (λ s. (s.id == t) ≡ false) rows
      → t ≡ id
      → Issued id token rows
  absent-Issued t [] a e = tt
  absent-Issued t (r ∷ rows) (x, a) e = (ground (arith, x, e), absent-Issued t rows a e)

  absent-returned :
      (rows : List Job)
      → All (λ s. (s.id == id) ≡ false) rows
      → has_job id token (returned ids rows) ≡ false
  unfolding returned
  absent-returned [] a = refl
  absent-returned (r ∷ rows) (x, a) =
      elim (Bool-cases (has_job id token (returned ids (r ∷ rows)))) [
        | inl e ↦ ground (arith, x, has_job-returned r rows e, absent-returned rows a)
        | inr e ↦ e
      ]

  apart_lem :
      (r : Job) (rows : List Job)
      → All (λ s. (s.id == r.id) ≡ false) rows
      → has_job id token (returned ids rows) ≡ true
      → is_issued id token r ≡ true
  apart_lem r rows x h = elim (Bool-cases (r.id == id)) [
    | inr e ↦ ground (arith, e)
    | inl e ↦
        let family : ℕ → Type 0 = λ t. All (λ s. (s.id == t) ≡ false) rows in
        ground (arith, h, absent-returned rows (subst family ((==_iff r.id id).0 e) x))
  ]

  pub returned-Issued :
      (rows : List Job)
      → UniqueIds rows
      → has_job id token (returned ids rows) ≡ true
      → Issued id token rows
  returned-Issued [] u h = tt
  returned-Issued (r ∷ rows) (x, u) h = elim (Bool-cases (r.id == id && r.lease_token == token)) [
    | inl e ↦ (ground (arith, e), absent-Issued r.id rows x (ground (arith, e)))
    | inr e ↦
        let deep : has_job id token (returned ids rows) ≡ true =
          ground (arith, e, has_job-returned r rows h) in
        (apart_lem r rows x deep, returned-Issued rows u deep)
  ]

-- What a claim hands out has been issued.
pub claim_rows-Issued :
    (id token : ℕ) (rows : List Job) (now until : Time) (n : ℕ)
    → UniqueIds rows
    → has_job id token (claim_rows rows now n until).1 ≡ true
    → Issued id token (claim_rows rows now n until).0
unfolding claim_rows
claim_rows-Issued id token rows now until n u h =
    let ids = due_ids now n rows in
    let held = lease_rows now until ids rows in
    All-reject_all (λ r. is_issued id token r ≡ true) (invalid_ids ids held) held (λ r e k. k)
      (returned-Issued id token ids held (UniqueIds-lease_rows now until ids rows u)
        (ground (arith, h, has_job-sort_jobs id token (returned ids held))))

abbrev pub jobs_of : Result FileError (List FileJob) → List FileJob
jobs_of (ok jobs) = jobs
jobs_of (err e) = []

pub claim-Issued :
    (id token : ℕ) (rows : List Job) (now : Time) (limit lease : ℤ)
    → UniqueIds rows
    → has_job id token (jobs_of (claim_file_captures rows now limit lease).1) ≡ true
    → Issued id token (claim_file_captures rows now limit lease).0
unfolding claim_file_captures
claim-Issued id token rows now limit lease u = elim (Bool-cases (is_invalid now lease)) [
  | inl e ↦ rw e (λ h. ground (arith, h))
  | inr e ↦ rw e (claim_rows-Issued id token rows now (now + to_ℕ lease) (claim_limit limit) u)
]
