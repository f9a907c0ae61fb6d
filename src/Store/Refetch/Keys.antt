-- ===== src/Store/Refetch/Keys.antt =====
-- The primary key of refetch_schedule, through every operation.
use shard_lure.Common.{
  ℕ, zero, suc, ◌+◌, ◌≡◌, inl, inr, refl, sym, subst, ◌∙◌, Bool, false, ◌&&◌, ◌||◌, not, is_nil,
  is_some, List, [], ◌∷◌, ◌++◌, Option, none, some, Bytes, eqb, eqb_refl, eq_of_eqb, has_key, ℤ,
  is_positive, to_ℕ, Bool-cases, arith,
}
use shard_lure.Common.Time.{Time}
use shard_lure.Store.Refetch.Schedule.{refetchable_url}
use shard_lure.Store.Refetch.Table.{Row, Artifact, find_row, urls, Unique, urls-update_where}
use shard_lure.Store.Refetch.Claim.{
  RefetchJob, seed_refetch, settle, refetch_settle_chunk, may_lease, lease_one, claim_refetch,
}
use shard_lure.Store.Refetch.Complete.{
  RefetchOutcome, is_current, complete_row, complete_found, complete_leased, complete_refetch,
  release_leased, release_refetch, is_leased_to, advance, is_job,
}
use shard_lure.Store.Refetch.Leases.Rows.{urls-settle}
use shard_lure.Store.Refetch.Purge.{purge_chunk, is_purgeable, purge_some}

absent :
    (url : Bytes) (rows : List Row)
    → is_some (find_row (λ r. eqb r.url url) rows) ≡ false
    → has_key (urls rows) url ≡ false
unfolding find_row urls
absent url [] h = refl
absent url (r ∷ rows) h = ground (arith, h, absent url rows, eq_of_eqb url r.url, eqb_refl url)

append-Unique :
    (rows : List Row) (r : Row)
    → has_key (urls rows) r.url ≡ false
    → Unique (urls rows)
    → Unique (urls (rows ++ r ∷ []))
unfolding urls
append-Unique [] r h u = (refl, tt)
append-Unique (s ∷ rows) r h (fresh, u) = (
  append_key rows r s.url fresh (ground (arith, h, eq_of_eqb s.url r.url, eqb_refl s.url)),
  append-Unique rows r (ground (arith, h)) u,
)
  where
    append_key :
        (rows : List Row) (r : Row) (k : Bytes)
        → has_key (urls rows) k ≡ false
        → eqb k r.url ≡ false
        → has_key (urls (rows ++ r ∷ [])) k ≡ false
    append_key [] r k h f = ground (arith, f)
    append_key (s ∷ rows) r k h f = ground (arith, h, append_key rows r k, f)

seed-Unique :
    (rows : List Row) (url : Bytes) (first_seen now : Time) (sha : Bytes)
    → Unique (urls rows)
    → Unique (urls (seed_refetch rows url first_seen now sha))
unfolding seed_refetch
seed-Unique rows url first_seen now sha u =
    elim (Bool-cases (not (refetchable_url url) || is_some (find_row (λ r. eqb r.url url) rows))) [
      | inl skip ↦ rw skip u
      | inr add ↦ rw add (append-Unique rows _ (absent url rows (ground (arith, add))) u)
    ]

lease_one-urls :
    (now : Time) (lease : ℕ) (o : Option Row) (rows : List Row)
    → urls (lease_one now lease o rows).1 ≡ urls rows
unfolding lease_one
lease_one-urls now lease none rows = refl
lease_one-urls now lease (some r) rows =
    let job : RefetchJob = record {
      url = r.url;
      checks = r.checks;
      first_seen = r.first_seen_at;
      lease = some (now + lease);
    } in
    ground (
      arith,
      urls-update_where (may_lease job now) (λ s. record s { lease_until = some (now + lease) })
          rows (λ s. refl),
    )

claim-urls :
    (rows : List Row) (now : Time) (lease : ℤ) → urls (claim_refetch rows now lease).1 ≡ urls rows
unfolding claim_refetch
claim-urls rows now lease = elim (Bool-cases (is_positive lease)) [
  | inr p ↦ rw p refl
  | inl p ↦ rw p (
      lease_one-urls now (to_ℕ lease) _ (settle refetch_settle_chunk now rows)
      ∙ urls-settle refetch_settle_chunk now rows)
]

found-urls :
    (rows : List Row) (arts : List Artifact) (job : RefetchJob) (now : Time) (out : RefetchOutcome)
    (o : Option Row)
    → urls (complete_found rows arts job now out o).1 ≡ urls rows
unfolding complete_found complete_row advance
found-urls rows arts job now out none = refl
found-urls rows arts job now out (some r) = urls-update_where (is_job job) _ rows (λ s. refl)

complete_leased-urls :
    (rows : List Row) (arts : List Artifact) (job : RefetchJob) (now : Time) (out : RefetchOutcome)
    (o : Option Time)
    → urls (complete_leased rows arts job now out o).1 ≡ urls rows
unfolding complete_leased
complete_leased-urls rows arts job now out none = refl
complete_leased-urls rows arts job now out (some lease) =
    found-urls rows arts job now out (find_row (is_current job lease now) rows)

complete-urls :
    (rows : List Row) (arts : List Artifact) (job : RefetchJob) (now : Time) (out : RefetchOutcome)
    → urls (complete_refetch rows arts job now out).1 ≡ urls rows
unfolding complete_refetch
complete-urls rows arts job now out = elim (Bool-cases (out.is_ok && is_nil out.sha256)) [
  | inl bad ↦ rw bad refl
  | inr good ↦ rw good (complete_leased-urls rows arts job now out job.lease)
]

release_leased-urls :
    (rows : List Row) (job : RefetchJob) (now : Time) (o : Option Time)
    → urls (release_leased rows job now o).1 ≡ urls rows
unfolding release_leased
release_leased-urls rows job now none = refl
release_leased-urls rows job now (some lease) =
    elim (Bool-cases (is_some (find_row (is_leased_to job lease) rows))) [
      | inr gone ↦ rw gone refl
      | inl there ↦ rw there (urls-update_where (is_leased_to job lease) _ rows (λ s. refl))
    ]

purge_some_key :
    (p : Row → Bool) (n : ℕ) (rows : List Row) (k : Bytes)
    → has_key (urls rows) k ≡ false
    → has_key (urls (purge_some p n rows).1) k ≡ false
unfolding urls purge_some
purge_some_key p n [] k h = refl
purge_some_key p zero (r ∷ rows) k h = h
purge_some_key p (suc n) (r ∷ rows) k h =
    ground (arith, h, purge_some_key p n rows k, purge_some_key p (suc n) rows k)

purge_some-Unique :
    (p : Row → Bool) (n : ℕ) (rows : List Row)
    → Unique (urls rows)
    → Unique (urls (purge_some p n rows).1)
unfolding urls purge_some
purge_some-Unique p n [] u = tt
purge_some-Unique p zero (r ∷ rows) u = u
purge_some-Unique p (suc n) (r ∷ rows) (fresh, u) = elim (Bool-cases (p r)) [
  | inl gone ↦ rw gone (purge_some-Unique p n rows u)
  | inr there ↦
      rw there (purge_some_key p (suc n) rows r.url fresh, purge_some-Unique p (suc n) rows u)
]

-- The operations on the schedule, as steps of its rows; each chunk of a purge is a step.
pub data Step : List Row → List Row → Type 0 where
  seeds :
      {rows : List Row} (url : Bytes) (first_seen now : Time) (sha : Bytes)
      → Step rows (seed_refetch rows url first_seen now sha)
  claims : {rows : List Row} (now : Time) (lease : ℤ) → Step rows (claim_refetch rows now lease).1
  completes :
      {rows : List Row} (arts : List Artifact) (job : RefetchJob) (now : Time)
      (out : RefetchOutcome)
      → Step rows (complete_refetch rows arts job now out).1
  releases :
      {rows : List Row} (job : RefetchJob) (now : Time) → Step rows (release_refetch rows job now).1
  purges :
      {rows : List Row} (cutoff now : Time)
      → Step rows (purge_some (is_purgeable cutoff now) purge_chunk rows).1

pub data Reachable : List Row → Type 0 where
  empty : Reachable []
  onward : {rows rows' : List Row} → Reachable rows → Step rows rows' → Reachable rows'

Step-Unique : {rows rows' : List Row} → Step rows rows' → Unique (urls rows) → Unique (urls rows')
Step-Unique (seeds {rows} url first_seen now sha) u = seed-Unique rows url first_seen now sha u
Step-Unique (claims {rows} now lease) u = subst Unique (sym (claim-urls rows now lease)) u
Step-Unique (completes {rows} arts job now out) u =
    subst Unique (sym (complete-urls rows arts job now out)) u
Step-Unique (releases {rows} job now) u =
    unfold release_refetch in subst Unique (sym (release_leased-urls rows job now job.lease)) u
Step-Unique (purges {rows} cutoff now) u =
    purge_some-Unique (is_purgeable cutoff now) purge_chunk rows u

-- Every schedule that the operations can produce from the empty one, in any order and with any
-- arguments, has one row for each URL at most.
pub Reachable-Unique : {rows : List Row} → Reachable rows → Unique (urls rows)
unfolding urls
Reachable-Unique empty = tt
Reachable-Unique (onward r s) = Step-Unique s (Reachable-Unique r)
