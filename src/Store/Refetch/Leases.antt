-- ===== src/Store/Refetch/Leases.antt =====
-- Claims, completions and releases of any workers, in any order: the lease of a job is respected.
pub mod Rows
mod Calls
use mathlib.Core.List.{Memᴰ}
use shard_lure.Common.{
  ℕ, zero, suc, ◌+◌, ◌≤◌, ◌<◌, ◌≡◌, ◌≢◌, ◌⊎◌, inl, inr, refl, sym, subst, ap, ◌∙◌, ◌||◌, Bool, true,
  false, ◌&&◌, not, is_nil, is_some, List, [], ◌∷◌, Option, none, some, Bytes, eqb, eqb_refl,
  eq_of_eqb, has_key, ltb, leb, ◌==◌, ℤ, pos, negsuc, is_positive, to_ℕ, All, if◌then◌else◌,
  Bool-cases, Option-cases, arith,
}
use shard_lure.Common.Time.{Time, day, sub, at_least}
use shard_lure.Common.Result.{Result, ok, err}
use shard_lure.Store.Refetch.Schedule.{State, done, is_done, refetch_max_age}
use shard_lure.Store.Refetch.Table.{
  Row, Artifact, RefetchError, claim_stale, is_unleased, has_lease, update_where, find_row, urls,
  Unique,
}
use shard_lure.Store.Refetch.Claim.{
  RefetchJob, refetch_settle_chunk, is_overdue, settle, is_due, most_overdue, may_lease, lease_one,
  claim_refetch,
}
use shard_lure.Store.Refetch.Claim.Chosen.{claim_refetch-IsChosen}
use shard_lure.Store.Refetch.Complete.{
  RefetchOutcome, is_current, is_job, is_leased_to, complete_found, complete_row, complete_leased,
  release_leased, advance, complete_refetch, release_refetch,
}
use shard_lure.Store.Refetch.Leases.Rows.{
  IsLeased, urls-settle, lease_rows, leased, settle-IsLeased, update-IsLeased, found-IsLeased,
}
use shard_lure.Store.Refetch.Leases.Calls.{
  claim-IsLeased, complete-IsLeased, release_leased-IsLeased, claim_leases,
}

-- A worker's call, at its own reading of the clock.
pub data Step : Type 0 where
  claims : Time → ℤ → Step
  completes : RefetchJob → Time → RefetchOutcome → Step
  releases : RefetchJob → Time → Step

pub run_step : List Row × List Artifact → Step → List Row × List Artifact
run_step (rows, arts) (claims now lease) = ((claim_refetch rows now lease).1, arts)
run_step (rows, arts) (completes job now out) =
    let (answer, rows', arts') = complete_refetch rows arts job now out in (rows', arts')
run_step (rows, arts) (releases job now) = ((release_refetch rows job now).1, arts)

-- A call that is not the holder's: a claim before the lease ends, or a job with another lease.
abbrev pub IsForeign : Bytes → Time → Step → Type 0
IsForeign url until (claims now lease) = now < until
IsForeign url until (completes job now out) = (eqb job.url url ≡ true → job.lease ≢ some until)
IsForeign url until (releases job now) = (eqb job.url url ≡ true → job.lease ≢ some until)

run_step-IsLeased :
    (url : Bytes) (until : Time) (s : List Row × List Artifact) (x : Step)
    → IsForeign url until x
    → IsLeased url until s.0
    → IsLeased url until (run_step s x).0
unfolding run_step
run_step-IsLeased url until (rows, arts) (claims now lease) h l =
    claim-IsLeased now until url lease rows h l
run_step-IsLeased url until (rows, arts) (completes job now out) h l =
    complete-IsLeased until url job now out rows arts h l
run_step-IsLeased url until (rows, arts) (releases job now) h l =
    unfold release_refetch in release_leased-IsLeased until url job now rows job.lease refl h l

unfoldable pub run : List Row × List Artifact → List Step → List Row × List Artifact
run s [] = s
run s (x ∷ steps) = run (run_step s x) steps

run-IsLeased :
    (url : Bytes) (until : Time) (s : List Row × List Artifact) (steps : List Step)
    → All (IsForeign url until) steps
    → IsLeased url until s.0
    → IsLeased url until (run s steps).0
unfolding run
run-IsLeased url until s [] h l = l
run-IsLeased url until s (x ∷ steps) (h, hs) l =
    run-IsLeased url until (run_step s x) steps hs (run_step-IsLeased url until s x h l)

All_at : (P : Row → Type 0) (rows : List Row) (r : Row) → All P rows → Memᴰ r rows → P r
All_at P [] r h m = elim m [ ]
All_at P (s ∷ rows) r (h, hs) (Memᴰ.head e) = subst P (sym e) h
All_at P (s ∷ rows) r (h, hs) (Memᴰ.tail m) = All_at P rows r hs m

due_unleased : (now : Time) (r : Row) → is_due now r ≡ true → is_unleased r.lease_until now ≡ true
unfolding is_due
due_unleased now r h = ground arith

-- A lease that a claim wrote stays: from a table with unique keys, after the claim and any number of
-- calls of other workers before the lease ends, completions and releases of jobs with another lease
-- of that URL among them, every row of the URL still carries the lease.
pub lease_kept :
    (rows : List Row) (arts : List Artifact) (now : Time) (lease : ℤ) (job : RefetchJob)
    (steps : List Step)
    → Unique (urls rows)
    → (claim_refetch rows now lease).0 ≡ ok (some job)
    → All (IsForeign job.url (now + to_ℕ lease)) steps
    → IsLeased job.url (now + to_ℕ lease) (run ((claim_refetch rows now lease).1, arts) steps).0
lease_kept rows arts now lease job steps u h foreign =
    run-IsLeased job.url (now + to_ℕ lease) ((claim_refetch rows now lease).1, arts) steps foreign
      (claim_leases rows now lease job u h)

-- Another claim finds no row of a leased URL.
taken :
    (rows : List Row) (url : Bytes) (until at : Time) (more : ℤ) (other : RefetchJob)
    → IsLeased url until rows
    → at < until
    → (claim_refetch rows at more).0 ≡ ok (some other)
    → other.url ≢ url
taken rows url until at more other kept before again same =
    let (r, there, due, first, key, checks, l) = claim_refetch-IsChosen rows at more other again in
    let held = All_at (λ r. eqb r.url url ≡ true → r.lease_until ≡ some until) rows r kept there in
    let e : eqb r.url url ≡ true = rw (← key, same) (eqb_refl url) in
    ground (arith, held e, due_unleased at r due)

-- A leased URL belongs to its claim: from a table with unique keys, after the claim and any number
-- of calls of other workers before the lease ends, completions and releases of jobs with another
-- lease of that URL among them, whatever a claim before that end returns, it is not the same URL.
pub lease_respected :
    (rows : List Row) (arts : List Artifact) (now : Time) (lease : ℤ) (job : RefetchJob)
    (steps : List Step) (at : Time) (more : ℤ) (other : RefetchJob)
    → Unique (urls rows)
    → (claim_refetch rows now lease).0 ≡ ok (some job)
    → All (IsForeign job.url (now + to_ℕ lease)) steps
    → at < now + to_ℕ lease
    → (claim_refetch (run ((claim_refetch rows now lease).1, arts) steps).0 at more).0
      ≡ ok (some other)
    → other.url ≢ job.url
lease_respected rows arts now lease job steps at more other u h foreign before again =
    taken (run ((claim_refetch rows now lease).1, arts) steps).0 job.url (now + to_ℕ lease) at more
      other (lease_kept rows arts now lease job steps u h foreign) before again
