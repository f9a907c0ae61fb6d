-- ===== src/Store/Refetch/Complete/Refused.antt =====
-- What `CompleteRefetch` and `ReleaseRefetch` refuse, and what a refusal leaves behind.
use mathlib.Core.List.{Memᴰ}
use shard_lure.Common.{
  ◌⊎◌, ◌<◌, true, not, eqb_refl, eq_of_eqb, ap, ◌≡◌, inl, inr, refl, Bool, false, ◌&&◌, is_nil,
  is_some, List, [], ◌∷◌, Option, none, some, any, if◌then◌else◌, Bool-cases, arith,
}
use shard_lure.Common.Time.{Time}
use shard_lure.Common.Result.{Result, ok, err}
use shard_lure.Store.Refetch.Table.{
  is_unleased, has_lease, Row, Artifact, RefetchError, no_sha256, claim_stale, find_row,
}
use shard_lure.Store.Refetch.Claim.{RefetchJob}
use shard_lure.Store.Refetch.Complete.{
  RefetchOutcome, is_current, complete_found, complete_leased, complete_refetch,
}

-- Some row is under the lease of the job, and the lease is live.
abbrev pub is_holder : RefetchJob → Time → List Row → Option Time → Bool
is_holder job now rows none = false
is_holder job now rows (some lease) = any (is_current job lease now) rows

-- The answer of a completion: an error exactly as the table says.
abbrev pub refusal : RefetchJob → Time → RefetchOutcome → List Row → Option RefetchError
refusal job now out rows =
    if out.is_ok && is_nil out.sha256
    then some no_sha256
    else if is_holder job now rows job.lease
    then none
    else some claim_stale

abbrev pub error_of : Result RefetchError Bool → Option RefetchError
error_of (ok b) = none
error_of (err e) = some e

pub find_row-any : (p : Row → Bool) (rows : List Row) → is_some (find_row p rows) ≡ any p rows
unfolding find_row
find_row-any p [] = refl
find_row-any p (r ∷ rows) = ground (arith, find_row-any p rows)

found_error :
    (rows : List Row) (arts : List Artifact) (job : RefetchJob) (now : Time) (out : RefetchOutcome)
    (o : Option Row)
    → (error_of (complete_found rows arts job now out o).0
        ≡ (if is_some o then none else some claim_stale))
      × (is_some o ≡ false → complete_found rows arts job now out o ≡ (err claim_stale, rows, arts))
unfolding complete_found
found_error rows arts job now out none = (refl, λ e. refl)
found_error rows arts job now out (some r) = (refl, λ e. cc)

leased_error :
    (rows : List Row) (arts : List Artifact) (job : RefetchJob) (now : Time) (out : RefetchOutcome)
    (o : Option Time)
    → (error_of (complete_leased rows arts job now out o).0
        ≡ (if is_holder job now rows o then none else some claim_stale))
      × (is_holder job now rows o ≡ false
          → complete_leased rows arts job now out o ≡ (err claim_stale, rows, arts))
unfolding complete_leased
leased_error rows arts job now out none = (refl, λ e. refl)
leased_error rows arts job now out (some lease) =
    rw (← find_row-any (is_current job lease now) rows)
      (found_error rows arts job now out (find_row (is_current job lease now) rows))

-- The answer by the test of the fencing query.
complete_refetch-refusal :
    (rows : List Row) (arts : List Artifact) (job : RefetchJob) (now : Time) (out : RefetchOutcome)
    → error_of (complete_refetch rows arts job now out).0 ≡ refusal job now out rows
unfolding complete_refetch
complete_refetch-refusal rows arts job now out =
    elim (Bool-cases (out.is_ok && is_nil out.sha256)) [
      | inl bad ↦ rw bad refl
      | inr good ↦ rw good (leased_error rows arts job now out job.lease).0
    ]

-- A refused completion changes neither the schedule nor the artifacts.
pub refused_unchanged :
    (rows : List Row) (arts : List Artifact) (job : RefetchJob) (now : Time) (out : RefetchOutcome)
    (e : RefetchError)
    → refusal job now out rows ≡ some e
    → complete_refetch rows arts job now out ≡ (err e, rows, arts)
unfolding complete_refetch
refused_unchanged rows arts job now out e = elim (Bool-cases (out.is_ok && is_nil out.sha256)) [
  | inl bad ↦ rw bad (λ h. ground (arith, h))
  | inr good ↦ elim (Bool-cases (is_holder job now rows job.lease)) [
    | inl held ↦ rw (good, held) (λ h. cc)
    | inr free ↦
        rw (good, (leased_error rows arts job now out job.lease).1 free, free)
          (λ h. ground (arith, h))
  ]
]

-- The job is under a live lease: a row of its URL, with its number of checks, carries the lease that the
-- job carries, and that lies ahead of `now`.
abbrev pub IsHeld : List Row → RefetchJob → Time → Type 0
IsHeld rows job now =
    (r : Row) × (until : Time) × Memᴰ r rows
    × (r.url ≡ job.url)
    × (r.checks ≡ job.checks)
    × (r.lease_until ≡ some until)
    × (job.lease ≡ some until)
    × (now < until)

-- What a completion answers, by whether its outcome claims success without a hash and whether its job
-- is held; and what it leaves where it refuses.
abbrev pub IsAnswered :
    List Row
    → List Artifact
    → RefetchJob
    → Time
    → RefetchOutcome
    → Result RefetchError Bool × List Row × List Artifact
    → Type 0
IsAnswered rows arts job now out answer =
    ((out.is_ok && is_nil out.sha256 ≡ true) × (answer ≡ (err no_sha256, rows, arts)))
    ⊎ ((out.is_ok && is_nil out.sha256 ≡ false) × IsHeld rows job now × (error_of answer.0 ≡ none))
    ⊎ ((out.is_ok && is_nil out.sha256 ≡ false)
        × (¬ IsHeld rows job now)
        × (answer ≡ (err claim_stale, rows, arts)))

found_row :
    (job : RefetchJob) (lease now : Time) (rows : List Row)
    → any (is_current job lease now) rows ≡ true
    → (r : Row) × Memᴰ r rows × (is_current job lease now r ≡ true)
found_row job lease now [] h = cc
found_row job lease now (r ∷ rows) h = elim (Bool-cases (is_current job lease now r)) [
  | inl e ↦ (r, Memᴰ.head refl, e)
  | inr e ↦
      let (s, m, k) = found_row job lease now rows (ground (arith, h, e)) in (s, Memᴰ.tail m, k)
]

missed_row :
    (job : RefetchJob) (lease now : Time) (rows : List Row) (r : Row)
    → any (is_current job lease now) rows ≡ false
    → Memᴰ r rows
    → is_current job lease now r ≡ false
missed_row job lease now [] r h m = elim m [ ]
missed_row job lease now (s ∷ rows) r h (Memᴰ.head e) = rw e (ground (arith, h))
missed_row job lease now (s ∷ rows) r h (Memᴰ.tail m) =
    missed_row job lease now rows r (ground (arith, h)) m

current_lease :
    (job : RefetchJob) (lease now : Time) (o : Option Time)
    → not (is_unleased o now) && has_lease o lease ≡ true
    → (o ≡ some lease) × (now < lease)
current_lease job lease now none h = cc
current_lease job lease now (some until) h =
    let met : until ≡ lease = ground (arith, h) in (ap some met, ground (arith, h))

-- The test of the fencing query is what `IsHeld` says.
holder-IsHeld :
    (job : RefetchJob) (now : Time) (rows : List Row) (o : Option Time)
    → job.lease ≡ o
    → is_holder job now rows o ≡ true
    → IsHeld rows job now
unfolding is_current
holder-IsHeld job now rows none e h = cc
holder-IsHeld job now rows (some lease) e h =
    let (r, m, k) = found_row job lease now rows h in
    let (l, ahead) = current_lease job lease now r.lease_until (ground (arith, k)) in
    (r, lease, m, eq_of_eqb r.url job.url (ground (arith, k)), ground (arith, k), l, e, ahead)

holder_none :
    (job : RefetchJob) (now : Time) (rows : List Row) (o : Option Time)
    → job.lease ≡ o
    → is_holder job now rows o ≡ false
    → ¬ IsHeld rows job now
unfolding is_current
holder_none job now rows none e h (r, until, m, u, c, l, j, ahead) = ground (arith, e, j)
holder_none job now rows (some lease) e h (r, until, m, u, c, l, j, ahead) =
    ground (arith, missed_row job lease now rows r h m, u, c, l, j, e, ahead, eqb_refl job.url)

-- A completion refuses in exactly two cases and then changes neither the schedule nor the artifacts:
-- with `no_sha256` an outcome that claims success without a hash, and else with `claim_stale` a job
-- that no row of its URL and its number of checks holds by the job's own lease, still ahead of `now`.
-- So a job whose lease ended, was cleared or was replaced is refused, and every other is accepted.
pub complete_refetch-IsAnswered :
    (rows : List Row) (arts : List Artifact) (job : RefetchJob) (now : Time) (out : RefetchOutcome)
    → IsAnswered rows arts job now out (complete_refetch rows arts job now out)
unfolding complete_refetch
complete_refetch-IsAnswered rows arts job now out =
    elim (Bool-cases (out.is_ok && is_nil out.sha256)) [
      | inl bad ↦ inl (bad, rw bad refl)
      | inr good ↦ elim (Bool-cases (is_holder job now rows job.lease)) [
        | inl held ↦
            let answer = (leased_error rows arts job now out job.lease).0 in
            inr (
              inl (
                good,
                holder-IsHeld job now rows job.lease refl held,
                rw good (rw answer (rw held refl)),
              ))
        | inr free ↦ inr (
            inr (
              good,
              holder_none job now rows job.lease refl free,
              rw good ((leased_error rows arts job now out job.lease).1 free),
            ))
      ]
    ]
