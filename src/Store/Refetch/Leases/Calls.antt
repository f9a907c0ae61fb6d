-- ===== src/Store/Refetch/Leases/Calls.antt =====
-- Each call of internal/store/refetch.go against a lease that is not its own, and a claim against the
-- lease that it writes.
use shard_lure.Common.{
  ℕ, ◌+◌, ◌<◌, ◌≡◌, ◌≢◌, inl, inr, refl, sym, subst, ap, ◌∙◌, true, false, ◌&&◌, is_nil, is_some,
  List, Option, none, some, Bytes, eqb, eq_of_eqb, ℤ, is_positive, to_ℕ, Bool-cases, arith,
}
use shard_lure.Common.Time.{Time, sub, at_least}
use shard_lure.Common.Result.{ok}
use shard_lure.Store.Refetch.Schedule.{refetch_max_age}
use shard_lure.Store.Refetch.Table.{Row, Artifact, update_where, find_row, urls, Unique}
use shard_lure.Store.Refetch.Claim.{
  RefetchJob, refetch_settle_chunk, settle, most_overdue, may_lease, lease_one, claim_refetch,
}
use shard_lure.Store.Refetch.Complete.{
  RefetchOutcome, is_current, is_job, is_leased_to, complete_found, complete_row, complete_leased,
  release_leased, advance, complete_refetch,
}
use shard_lure.Store.Refetch.Leases.Rows.{
  IsLeased, urls-settle, lease_rows, leased, settle-IsLeased, update-IsLeased, found-IsLeased,
}

may_lease_far :
    (job : RefetchJob) (now until : Time) (url : Bytes)
    → now < until
    → (r : Row) → may_lease job now r ≡ true
    → (eqb r.url url ≡ true → r.lease_until ≡ some until)
    → eqb r.url url ≡ false
unfolding may_lease
may_lease_far job now until url h r m l = ground (arith, m, l)

lease_one-IsLeased :
    (now until : Time) (url : Bytes) (lease : ℕ) (o : Option Row) (rows : List Row)
    → now < until
    → IsLeased url until rows
    → IsLeased url until (lease_one now lease o rows).1
unfolding lease_one
lease_one-IsLeased now until url lease none rows h l = l
lease_one-IsLeased now until url lease (some r) rows h l =
    let job : RefetchJob = record {
      url = r.url;
      checks = r.checks;
      first_seen = r.first_seen_at;
      lease = some (now + lease);
    } in
    elim (Bool-cases (at_least (sub now r.first_seen_at) refetch_max_age)) [
      | inl old ↦ rw old l
      | inr young ↦ elim (Bool-cases (is_some (find_row (may_lease job now) rows))) [
        | inr gone ↦ rw (young, gone) l
        | inl there ↦
            rw (young, there)
              (update-IsLeased (may_lease job now) (leased (now + lease)) url until rows (λ s. refl)
                (may_lease_far job now until url h) l)
      ]
    ]

pub claim-IsLeased :
    (now until : Time) (url : Bytes) (lease : ℤ) (rows : List Row)
    → now < until
    → IsLeased url until rows
    → IsLeased url until (claim_refetch rows now lease).1
unfolding claim_refetch
claim-IsLeased now until url lease rows h l = elim (Bool-cases (is_positive lease)) [
  | inr p ↦ rw p l
  | inl p ↦ rw p (
      lease_one-IsLeased now until url (to_ℕ lease) _ _ h
        (settle-IsLeased refetch_settle_chunk now until url rows h l))
]

-- A row that a fencing test accepts is none of the leased ones, unless the job holds the lease.
job_far :
    (job : RefetchJob) (url : Bytes)
    → eqb job.url url ≡ false
    → (r : Row) → is_job job r ≡ true
    → eqb r.url url ≡ false
job_far job url f r m = ground (arith, m, f, eq_of_eqb r.url job.url)

current_far :
    (job : RefetchJob) (lease now until : Time) (url : Bytes) (r : Row)
    → job.lease ≡ some lease
    → (eqb job.url url ≡ true → job.lease ≢ some until)
    → is_current job lease now r ≡ true
    → (eqb r.url url ≡ true → r.lease_until ≡ some until)
    → eqb job.url url ≡ false
unfolding is_current
current_far job lease now until url r j foreign c l = elim (Bool-cases (eqb job.url url)) [
  | inr f ↦ f
  | inl same ↦
      let e : r.url ≡ job.url = ground (arith, c, eq_of_eqb r.url job.url) in
      let held : r.lease_until ≡ some until = l (ap (λ u. eqb u url) e ∙ same) in
      let equal : lease ≡ until = ground (arith, c, held) in
      absurd (foreign same (j ∙ ap some equal))
]

complete_found-IsLeased :
    (until : Time) (url : Bytes) (job : RefetchJob) (now : Time) (out : RefetchOutcome)
    (rows : List Row) (arts : List Artifact) (o : Option Row)
    → ((r : Row) → o ≡ some r → eqb job.url url ≡ false)
    → IsLeased url until rows
    → IsLeased url until (complete_found rows arts job now out o).1
unfolding complete_found complete_row advance
complete_found-IsLeased until url job now out rows arts none far l = l
complete_found-IsLeased until url job now out rows arts (some r) far l =
    update-IsLeased (is_job job) _ url until rows (λ s. refl)
      (λ s m _. job_far job url (far r refl) s m) l

complete_leased-IsLeased :
    (until : Time) (url : Bytes) (job : RefetchJob) (now : Time) (out : RefetchOutcome)
    (rows : List Row) (arts : List Artifact) (o : Option Time)
    → job.lease ≡ o
    → (eqb job.url url ≡ true → job.lease ≢ some until)
    → IsLeased url until rows
    → IsLeased url until (complete_leased rows arts job now out o).1
unfolding complete_leased
complete_leased-IsLeased until url job now out rows arts none p foreign l = l
complete_leased-IsLeased until url job now out rows arts (some lease) p foreign l =
    complete_found-IsLeased until url job now out rows arts
      (find_row (is_current job lease now) rows)
      (λ r found.
        let (c, lr) = found-IsLeased (is_current job lease now) url until rows r found l in
        current_far job lease now until url r p foreign c lr)
      l

pub complete-IsLeased :
    (until : Time) (url : Bytes) (job : RefetchJob) (now : Time) (out : RefetchOutcome)
    (rows : List Row) (arts : List Artifact)
    → (eqb job.url url ≡ true → job.lease ≢ some until)
    → IsLeased url until rows
    → IsLeased url until (complete_refetch rows arts job now out).1
unfolding complete_refetch
complete-IsLeased until url job now out rows arts foreign l =
    elim (Bool-cases (out.is_ok && is_nil out.sha256)) [
      | inl bad ↦ rw bad l
      | inr good ↦
          rw good
            (complete_leased-IsLeased until url job now out rows arts job.lease refl foreign l)
    ]

leased_far :
    (job : RefetchJob) (lease until : Time) (url : Bytes)
    → job.lease ≡ some lease
    → (eqb job.url url ≡ true → job.lease ≢ some until)
    → (r : Row) → is_leased_to job lease r ≡ true
    → (eqb r.url url ≡ true → r.lease_until ≡ some until)
    → eqb r.url url ≡ false
leased_far job lease until url p foreign r m l = elim (Bool-cases (eqb r.url url)) [
  | inr f ↦ f
  | inl same ↦
      let e : r.url ≡ job.url = ground (arith, m, eq_of_eqb r.url job.url) in
      let held : r.lease_until ≡ some until = l same in
      let equal : lease ≡ until = ground (arith, m, held) in
      absurd (foreign (ap (λ u. eqb u url) (sym e) ∙ same) (p ∙ ap some equal))
]

pub release_leased-IsLeased :
    (until : Time) (url : Bytes) (job : RefetchJob) (now : Time) (rows : List Row) (o : Option Time)
    → job.lease ≡ o
    → (eqb job.url url ≡ true → job.lease ≢ some until)
    → IsLeased url until rows
    → IsLeased url until (release_leased rows job now o).1
unfolding release_leased
release_leased-IsLeased until url job now rows none p foreign l = l
release_leased-IsLeased until url job now rows (some lease) p foreign l =
    elim (Bool-cases (is_some (find_row (is_leased_to job lease) rows))) [
      | inr gone ↦ rw gone l
      | inl there ↦ rw there (
          update-IsLeased (is_leased_to job lease) _ url until rows (λ s. refl)
            (leased_far job lease until url p foreign) l)
    ]

lease_one_leases :
    (now : Time) (lease : ℕ) (o : Option Row) (rows : List Row) (job : RefetchJob)
    → Unique (urls rows)
    → (lease_one now lease o rows).0 ≡ some job
    → IsLeased job.url (now + lease) (lease_one now lease o rows).1
unfolding lease_one
lease_one_leases now lease none rows job u h = cc
lease_one_leases now lease (some r) rows job u h =
    let mine : RefetchJob = record {
      url = r.url;
      checks = r.checks;
      first_seen = r.first_seen_at;
      lease = some (now + lease);
    } in
    elim (Bool-cases (at_least (sub now r.first_seen_at) refetch_max_age)) [
      | inl old ↦ ground (arith, h, old)
      | inr young ↦ elim (Bool-cases (is_some (find_row (may_lease mine now) rows))) [
        | inr gone ↦ ground (arith, h, young, gone)
        | inl there ↦
            let e : r.url ≡ job.url = ground (arith, h, young, there) in
            rw (young, there)
              (subst
                (λ u.
                  IsLeased u (now + lease)
                    (update_where (may_lease mine now) (leased (now + lease)) rows))
                e (lease_rows mine now (now + lease) rows u there))
      ]
    ]

pub claim_leases :
    (rows : List Row) (now : Time) (lease : ℤ) (job : RefetchJob)
    → Unique (urls rows)
    → (claim_refetch rows now lease).0 ≡ ok (some job)
    → IsLeased job.url (now + to_ℕ lease) (claim_refetch rows now lease).1
unfolding claim_refetch
claim_leases rows now lease job u h = elim (Bool-cases (is_positive lease)) [
  | inr p ↦ ground (arith, h, p)
  | inl p ↦ rw p (
      lease_one_leases now (to_ℕ lease) (most_overdue now (settle refetch_settle_chunk now rows)) _
        job (subst Unique (sym (urls-settle refetch_settle_chunk now rows)) u)
        (ground (arith, h, p)))
]
