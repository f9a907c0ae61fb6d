-- ===== src/Store/Refetch/Claim/Progress.antt =====
-- `ClaimRefetch` finds work whenever there is some.
use mathlib.Core.List.{Memᴰ}
use shard_lure.Common.{
  ℕ, zero, suc, ◌+◌, ◌≡◌, refl, ◌∙◌, subst, Bool, true, false, is_some, List, [], ◌∷◌, Option, none,
  some, eqb_refl, any, ℤ, is_positive, to_ℕ, arith,
}
use shard_lure.Common.Time.{Time, at_least-sub}
use shard_lure.Common.Result.{Result, ok, err}
use shard_lure.Store.Refetch.Schedule.{refetch_max_age}
use shard_lure.Store.Refetch.Table.{Row, RefetchError, find_row}
use shard_lure.Store.Refetch.Claim.{
  RefetchJob, refetch_settle_chunk, is_overdue, settle, is_due, most_overdue, may_lease, lease_one,
  claim_refetch,
}
use shard_lure.Store.Refetch.Claim.Chosen.{most_overdue-IsChosen}

-- A claim that returned a job.
abbrev pub is_job_answer : Result RefetchError (Option RefetchJob) → Bool
is_job_answer (ok (some job)) = true
is_job_answer (ok none) = false
is_job_answer (err e) = false

any_due-settle :
    (n : ℕ) (now : Time) (rows : List Row)
    → any (is_due now) (settle n now rows) ≡ any (is_due now) rows
unfolding settle is_due is_overdue
any_due-settle n now [] = refl
any_due-settle zero now (r ∷ rows) = refl
any_due-settle (suc n) now (r ∷ rows) =
    ground (arith, any_due-settle n now rows, any_due-settle (suc n) now rows)

most_overdue-is_some :
    (now : Time) (rows : List Row) → is_some (most_overdue now rows) ≡ any (is_due now) rows
unfolding most_overdue
most_overdue-is_some now [] = refl
most_overdue-is_some now (r ∷ rows) = ground (arith, most_overdue-is_some now rows)

found :
    (p : Row → Bool) (rows : List Row) (r : Row)
    → Memᴰ r rows
    → p r ≡ true
    → is_some (find_row p rows) ≡ true
unfolding find_row
found p [] r m h = elim m [ ]
found p (s ∷ rows) r (Memᴰ.head e) h =
    let t : p s ≡ true = subst (λ x. p x ≡ true) e h in ground (arith, t)
found p (s ∷ rows) r (Memᴰ.tail m) h = ground (arith, found p rows r m h)

due_lease :
    (now : Time) (lease : ℕ) (r : Row) (rows : List Row)
    → Memᴰ r rows
    → is_due now r ≡ true
    → is_some (lease_one now lease (some r) rows).0 ≡ true
unfolding lease_one is_due
due_lease now lease r rows m h =
    let job : RefetchJob = record {
      url = r.url;
      checks = r.checks;
      first_seen = r.first_seen_at;
      lease = some (now + lease);
    } in
    let mine : may_lease job now r ≡ true = unfold may_lease in ground (arith, h, eqb_refl r.url) in
    ground (
      arith,
      h,
      found (may_lease job now) rows r m mine,
      at_least-sub now r.first_seen_at refetch_max_age (omega arith) (omega arith),
    )

answer_lease :
    (now : Time) (lease : ℕ) (o : Option Row) (rows : List Row)
    → ((r : Row) → o ≡ some r → Memᴰ r rows × (is_due now r ≡ true))
    → is_some (lease_one now lease o rows).0 ≡ is_some o
unfolding lease_one
answer_lease now lease none rows h = refl
answer_lease now lease (some r) rows h = let (m, d) = h r refl in due_lease now lease r rows m d

-- With a positive lease a claim returns a job exactly when some row of the schedule is due: open, at
-- or past its next check, under no live lease and less than ten days old. No due URL waits while a
-- claim comes back empty, and the settling in front of it never hides one.
pub claim_refetch-is_due :
    (rows : List Row) (now : Time) (lease : ℤ)
    → is_positive lease ≡ true
    → is_job_answer (claim_refetch rows now lease).0 ≡ any (is_due now) rows
unfolding claim_refetch
claim_refetch-is_due rows now lease p =
    let rest = settle refetch_settle_chunk now rows in
    let same : is_some (lease_one now (to_ℕ lease) (most_overdue now rest) rest).0
        ≡ any (is_due now) rows =
      answer_lease now (to_ℕ lease) (most_overdue now rest) rest
        (λ r e. let c = most_overdue-IsChosen now rest r e in (c.0, c.1))
      ∙ most_overdue-is_some now rest
      ∙ any_due-settle refetch_settle_chunk now rows in
    ground (arith, p, same)
