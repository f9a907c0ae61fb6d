-- ===== src/Store/Refetch/Checks/Tables.antt =====
-- The operations of internal/store/refetch.go keep the room of every row.
use shard_lure.Common.{
  ℕ, zero, suc, ◌+◌, ◌≤◌, ◌≡◌, refl, sym, subst, inl, inr, Bool, true, false, ◌&&◌, ◌||◌, not,
  is_nil, is_some, List, [], ◌∷◌, ◌++◌, Option, none, some, Bytes, eqb, eqb_refl, eq_of_eqb, All,
  All-map, ℤ, is_positive, to_ℕ, if◌then◌else◌, Bool-cases, arith,
}
use shard_lure.Common.Time.{Time}
use shard_lure.Store.Refetch.Schedule.{State, is_done, refetchable_url, next_refetch}
use shard_lure.Store.Refetch.Schedule.Bound.{}
use shard_lure.Store.Refetch.Table.{Row, Artifact, find_row, urls, Unique}
use shard_lure.Store.Refetch.Claim.{
  RefetchJob, seed_refetch, settle, is_overdue, refetch_settle_chunk, most_overdue, may_lease,
  lease_one, claim_refetch,
}
use shard_lure.Store.Refetch.Claim.Chosen.{most_overdue-IsChosen}
use shard_lure.Store.Refetch.Complete.{
  RefetchOutcome, is_current, record_outcome, capped_state, complete_row, complete_found,
  complete_leased, complete_refetch, release_leased, release_refetch, is_leased_to, advance, is_job,
}
use shard_lure.Store.Refetch.Leases.Rows.{urls-settle}
use shard_lure.Store.Refetch.Checks.Rows.{update-All, All-mem, same_row, found_row}
use shard_lure.Store.Refetch.Checks.Room.{
  IsSpaced, seeded-IsSpaced, lease-IsSpaced, advance-IsSpaced, current_lem, released-IsSpaced,
}

pub seed-IsSpaced :
    (rows : List Row) (url : Bytes) (first_seen now : Time) (sha : Bytes)
    → first_seen ≤ now
    → All (IsSpaced now) rows
    → All (IsSpaced now) (seed_refetch rows url first_seen now sha)
unfolding seed_refetch
seed-IsSpaced rows url first_seen now sha h k =
    elim (Bool-cases (not (refetchable_url url) || is_some (find_row (λ r. eqb r.url url) rows))) [
      | inl skip ↦ rw skip k
      | inr add ↦ rw add (append-All _ rows _ k (seeded-IsSpaced url first_seen now sha h))
    ]
  where
    append-All :
        (P : Row → Type 0) (rows : List Row) (r : Row) → All P rows → P r → All P (rows ++ r ∷ [])
    append-All P [] r k h = (h, tt)
    append-All P (s ∷ rows) r (k, ks) h = (k, append-All P rows r ks h)

settle-IsSpaced :
    (n : ℕ) (now : Time) (rows : List Row)
    → All (IsSpaced now) rows
    → All (IsSpaced now) (settle n now rows)
unfolding settle
settle-IsSpaced n now [] k = tt
settle-IsSpaced zero now (r ∷ rows) k = k
settle-IsSpaced (suc n) now (r ∷ rows) (k, ks) = elim (Bool-cases (is_overdue now r)) [
  | inl o ↦ rw o ((k.0, (λ e. refl), λ e. cc), settle-IsSpaced n now rows ks)
  | inr o ↦ rw o (k, settle-IsSpaced (suc n) now rows ks)
]

may_lease_url :
    (job : RefetchJob) (now : Time) (s : Row)
    → may_lease job now s ≡ true
    → eqb s.url job.url ≡ true
unfolding may_lease
may_lease_url job now s h = ground (arith, h)

lease_one-IsSpaced :
    (now : Time) (lease : ℕ) (o : Option Row) (rows : List Row)
    → most_overdue now rows ≡ o
    → Unique (urls rows)
    → All (IsSpaced now) rows
    → All (IsSpaced now) (lease_one now lease o rows).1
unfolding lease_one
lease_one-IsSpaced now lease none rows e u k = k
lease_one-IsSpaced now lease (some r) rows e u k =
    let (m, due, f) = most_overdue-IsChosen now rows r e in
    let job : RefetchJob = record {
      url = r.url;
      checks = r.checks;
      first_seen = r.first_seen_at;
      lease = some (now + lease);
    } in
    let set = λ (s : Row). record s { lease_until = some (now + lease) } in
    let new = lease-IsSpaced now (now + lease) r due (All-mem (IsSpaced now) rows r m k) in
    let leased =
      update-All (IsSpaced now) (may_lease job now) set rows
        (All-map _ _ rows
          (λ s same p.
            subst (λ q. IsSpaced now (set q)) (sym (same (may_lease_url job now s p))) new)
          (same_row rows r u m))
        k in
    ground (arith, k, leased)

pub claim-IsSpaced :
    (rows : List Row) (now : Time) (lease : ℤ)
    → Unique (urls rows)
    → All (IsSpaced now) rows
    → All (IsSpaced now) (claim_refetch rows now lease).1
unfolding claim_refetch
claim-IsSpaced rows now lease u k = elim (Bool-cases (is_positive lease)) [
  | inr p ↦ rw p k
  | inl p ↦ rw p (
      lease_one-IsSpaced now (to_ℕ lease) _ (settle refetch_settle_chunk now rows) refl
        (subst Unique (sym (urls-settle refetch_settle_chunk now rows)) u)
        (settle-IsSpaced refetch_settle_chunk now rows k))
]

capped_going :
    (url : Bytes) (new : Bool) (arts : List Artifact) (state : State)
    → is_done (capped_state url new arts state) ≡ false
    → is_done state ≡ false
unfolding capped_state
capped_going url new arts state h = ground (arith, h)

complete_found-IsSpaced :
    (rows : List Row) (arts : List Artifact) (job : RefetchJob) (now : Time) (out : RefetchOutcome)
    (lease : Time) (o : Option Row)
    → find_row (is_current job lease now) rows ≡ o
    → Unique (urls rows)
    → All (IsSpaced now) rows
    → All (IsSpaced now) (complete_found rows arts job now out o).1
unfolding complete_found complete_row
complete_found-IsSpaced rows arts job now out lease none e u k = k
complete_found-IsSpaced rows arts job now out lease (some r) e u k =
    let (m, c) = found_row (is_current job lease now) rows r e in
    let spaced = All-mem (IsSpaced now) rows r m k in
    let (going, leased, url) = current_lem job lease now r c spaced in
    let failures = if out.is_ok then 0 else r.consecutive_failures + 1 in
    let (new_payload, arts') = record_outcome job.url r.first_seen_at now out arts in
    let plan = next_refetch r.first_seen_at now failures in
    let state = capped_state job.url new_payload arts' plan.1 in
    let new =
      advance-IsSpaced now out failures state r going leased
        (capped_going job.url new_payload arts' plan.1) spaced in
    update-All (IsSpaced now) (is_job job) (advance now out failures plan state) rows
      (All-map _ _ rows
        (λ s same p.
          subst (λ q. IsSpaced now (advance now out failures plan state q))
            (sym (same (job_url job s r p url))) new)
        (same_row rows r u m))
      k
  where
    job_url :
        (job : RefetchJob) (s r : Row)
        → is_job job s ≡ true
        → eqb r.url job.url ≡ true
        → eqb s.url r.url ≡ true
    job_url job s r p e =
        ground (arith, p, eq_of_eqb s.url job.url, eq_of_eqb r.url job.url e, eqb_refl r.url)

complete_leased-IsSpaced :
    (rows : List Row) (arts : List Artifact) (job : RefetchJob) (now : Time) (out : RefetchOutcome)
    (o : Option Time)
    → Unique (urls rows)
    → All (IsSpaced now) rows
    → All (IsSpaced now) (complete_leased rows arts job now out o).1
unfolding complete_leased
complete_leased-IsSpaced rows arts job now out none u k = k
complete_leased-IsSpaced rows arts job now out (some lease) u k =
    complete_found-IsSpaced rows arts job now out lease (find_row (is_current job lease now) rows)
      refl u k

pub complete-IsSpaced :
    (rows : List Row) (arts : List Artifact) (job : RefetchJob) (now : Time) (out : RefetchOutcome)
    → Unique (urls rows)
    → All (IsSpaced now) rows
    → All (IsSpaced now) (complete_refetch rows arts job now out).1
unfolding complete_refetch
complete-IsSpaced rows arts job now out u k = elim (Bool-cases (out.is_ok && is_nil out.sha256)) [
  | inl bad ↦ rw bad k
  | inr good ↦ rw good (complete_leased-IsSpaced rows arts job now out job.lease u k)
]

release_leased-IsSpaced :
    (rows : List Row) (job : RefetchJob) (now : Time) (o : Option Time)
    → All (IsSpaced now) rows
    → All (IsSpaced now) (release_leased rows job now o).1
unfolding release_leased
release_leased-IsSpaced rows job now none k = k
release_leased-IsSpaced rows job now (some lease) k =
    elim (Bool-cases (is_some (find_row (is_leased_to job lease) rows))) [
      | inr gone ↦ rw gone k
      | inl there ↦ rw there (
          update-All (IsSpaced now) (is_leased_to job lease) _ rows
            (All-map _ _ rows (λ s. released-IsSpaced job lease now s) k) k)
    ]

pub release-IsSpaced :
    (rows : List Row) (job : RefetchJob) (now : Time)
    → All (IsSpaced now) rows
    → All (IsSpaced now) (release_refetch rows job now).1
unfolding release_refetch
release-IsSpaced rows job now k = release_leased-IsSpaced rows job now job.lease k
