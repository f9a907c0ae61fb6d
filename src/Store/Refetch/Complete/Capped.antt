-- ===== src/Store/Refetch/Complete/Capped.antt =====
-- The cap on the payloads that one URL may yield.
use shard_lure.Common.{
  ◌+◌, ◌≤◌, ◌<◌, ◌≡◌, inl, inr, refl, subst, Bool, true, false, ◌&&◌, is_nil, List, [], ◌∷◌, ◌++◌,
  Option, none, some, Bytes, eqb, eqb_refl, eq_of_eqb, has_key, All, if◌then◌else◌, Bool-cases,
  arith,
}
use shard_lure.Common.Time.{Time}
use shard_lure.Store.Refetch.Schedule.{is_done, next_refetch}
use shard_lure.Store.Refetch.Table.{Row, Artifact, update_where, find_row, urls, Unique}
use shard_lure.Store.Refetch.Claim.{RefetchJob}
use shard_lure.Store.Refetch.Complete.{
  RefetchOutcome, refetch_max_new_payloads, is_current, touch, first_sighting, new_artifact,
  rotated, record_outcome, capped_state, advance, is_job, complete_row, complete_found,
  complete_leased, complete_refetch,
}

module _ (url : Bytes) where
  rotated-touch :
      (u sha : Bytes) (now : Time) (arts : List Artifact)
      → rotated url (touch u sha now arts) ≡ rotated url arts
  unfolding rotated touch
  rotated-touch u sha now [] = refl
  rotated-touch u sha now (a ∷ arts) = ground (arith, rotated-touch u sha now arts)

  rotated-append :
      (arts : List Artifact) (a : Artifact) → rotated url (arts ++ a ∷ []) ≤ rotated url arts + 1
  unfolding rotated
  rotated-append [] a = ground arith
  rotated-append (b ∷ arts) a = ground (arith, rotated-append arts a)

  rotated_other :
      (arts : List Artifact) (a : Artifact)
      → eqb a.url url ≡ false
      → rotated url (arts ++ a ∷ []) ≡ rotated url arts
  unfolding rotated
  rotated_other [] a h = ground (arith, h)
  rotated_other (b ∷ arts) a h = ground (arith, rotated_other arts a h)

new-url :
    (url sha : Bytes) (now first : Time) (arts : List Artifact) (o : Option Artifact)
    → (new_artifact url sha now first arts o).url ≡ url
unfolding new_artifact
new-url url sha now first arts none = refl
new-url url sha now first arts (some a) = refl

-- What an outcome does to the count of another URL: nothing.
outcome_other :
    (url other : Bytes) (first now : Time) (out : RefetchOutcome) (arts : List Artifact)
    → eqb url other ≡ false
    → rotated other (record_outcome url first now out arts).1 ≡ rotated other arts
unfolding record_outcome
outcome_other url other first now out arts h =
    let a = new_artifact url out.sha256 now first arts (first_sighting url arts) in
    ground (
      arith,
      rotated-touch other url out.sha256 now arts,
      rotated_other other arts a (rw new-url h),
    )

-- With no new payload the count of the URL stays.
outcome_same :
    (url : Bytes) (first now : Time) (out : RefetchOutcome) (arts : List Artifact)
    → (record_outcome url first now out arts).0 ≡ false
    → rotated url (record_outcome url first now out arts).1 ≡ rotated url arts
unfolding record_outcome
outcome_same url first now out arts h = ground (arith, h, rotated-touch url url out.sha256 now arts)

-- A row that is still scheduled has yielded fewer new payloads than the cap; a finished one is
-- under no lease.
abbrev pub IsWithin : List Artifact → Row → Type 0
IsWithin arts r =
    (is_done r.state ≡ false → rotated r.url arts < refetch_max_new_payloads)
    × (is_done r.state ≡ true → r.lease_until ≡ none)

abbrev pub IsCapped : List Row → List Artifact → Type 0
IsCapped rows arts = All (IsWithin arts) rows

advance-IsWithin :
    (job : RefetchJob) (now : Time) (out : RefetchOutcome) (arts : List Artifact) (r s : Row)
    → is_done r.state ≡ false
    → rotated job.url arts < refetch_max_new_payloads
    → is_job job s ≡ true
    → (let failures = if out.is_ok then 0 else r.consecutive_failures + 1 in
        let (new_payload, arts') = record_outcome job.url r.first_seen_at now out arts in
        let plan = next_refetch r.first_seen_at now failures in
        IsWithin arts'
          (advance now out failures plan (capped_state job.url new_payload arts' plan.1) s))
unfolding advance capped_state
advance-IsWithin job now out arts r s going few mine =
    let url : s.url ≡ job.url = ground (arith, mine, eq_of_eqb s.url job.url) in
    (rw url (ground (arith, few, outcome_same job.url r.first_seen_at now out arts)), λ _. refl)

pub no_row :
    (url : Bytes) (P : Row → Type 0) (rows : List Row)
    → has_key (urls rows) url ≡ false
    → All (λ s. eqb s.url url ≡ true → P s) rows
unfolding urls
no_row url P [] h = tt
no_row url P (s ∷ rows) h = (
  λ e. absurd (ground (arith, h, e, eq_of_eqb s.url url, eqb_refl url)),
  no_row url P rows (ground (arith, h)),
)

current_job :
    (job : RefetchJob) (lease now : Time) (r : Row)
    → is_current job lease now r ≡ true
    → is_job job r ≡ true
unfolding is_current
current_job job lease now r h = ground (arith, h)

found_key :
    (job : RefetchJob) (lease now : Time) (rows : List Row) (r : Row)
    → find_row (is_current job lease now) rows ≡ some r
    → has_key (urls rows) job.url ≡ true
unfolding find_row urls is_current
found_key job lease now [] r h = cc
found_key job lease now (s ∷ rows) r h =
    ground (arith, h, found_key job lease now rows r, eq_of_eqb s.url job.url, eqb_refl job.url)

-- Keys being unique, every row of the job's URL has the job's check count.
others_are_jobs :
    (job : RefetchJob) (lease now : Time) (rows : List Row) (r : Row)
    → Unique (urls rows)
    → find_row (is_current job lease now) rows ≡ some r
    → All (λ s. eqb s.url job.url ≡ true → is_job job s ≡ true) rows
unfolding urls find_row
others_are_jobs job lease now [] r u f = tt
others_are_jobs job lease now (s ∷ rows) r (fresh, u) f =
    elim (Bool-cases (is_current job lease now s)) [
      | inl c ↦
          let mine = current_job job lease now s c in
          let e : s.url ≡ job.url = ground (arith, mine, eq_of_eqb s.url job.url) in
          (
            λ _. mine,
            no_row job.url (λ s. is_job job s ≡ true) rows
                (subst (λ k. has_key (urls rows) k ≡ false) e fresh),
          )
      | inr c ↦
          let later : find_row (is_current job lease now) rows ≡ some r = ground (arith, f, c) in
          (
            λ e. absurd (
                ground
                  (arith, fresh, e, eq_of_eqb s.url job.url, found_key job lease now rows r later)),
            others_are_jobs job lease now rows r u later,
          )
    ]

found-IsWithin :
    (p : Row → Bool) (arts : List Artifact) (rows : List Row) (r : Row)
    → find_row p rows ≡ some r
    → IsCapped rows arts
    → (p r ≡ true) × IsWithin arts r
unfolding find_row
found-IsWithin p arts [] r h k = cc
found-IsWithin p arts (s ∷ rows) r h (k, ks) = elim (Bool-cases (p s)) [
  | inl m ↦
      let e : s ≡ r = ground (arith, h, m) in subst (λ t. (p t ≡ true) × IsWithin arts t) e (m, k)
  | inr m ↦ found-IsWithin p arts rows r (ground (arith, h, m)) ks
]

-- A row of another URL is untouched, in its columns and in its count.
update-IsCapped :
    (job : RefetchJob) (f : Row → Row) (arts arts' : List Artifact) (rows : List Row)
    → ((s : Row) → is_job job s ≡ true → IsWithin arts' (f s))
    → ((other : Bytes) → eqb job.url other ≡ false → rotated other arts' ≡ rotated other arts)
    → All (λ s. eqb s.url job.url ≡ true → is_job job s ≡ true) rows
    → IsCapped rows arts
    → IsCapped (update_where (is_job job) f rows) arts'
unfolding update_where
update-IsCapped job f arts arts' [] new same keyed k = tt
update-IsCapped job f arts arts' (s ∷ rows) new same (mine, keyed) (k, ks) =
    elim (Bool-cases (is_job job s)) [
      | inl m ↦ rw m (new s m, update-IsCapped job f arts arts' rows new same keyed ks)
      | inr m ↦
          let far : eqb job.url s.url ≡ false =
            ground (arith, m, mine, eq_of_eqb job.url s.url, eqb_refl s.url) in
          rw (m, same s.url far) (k, update-IsCapped job f arts arts' rows new same keyed ks)
    ]

-- Open and under the cap: what the fencing query finds.
current_open :
    (job : RefetchJob) (lease now : Time) (arts : List Artifact) (r : Row)
    → is_current job lease now r ≡ true
    → IsWithin arts r
    → (is_done r.state ≡ false) × (rotated job.url arts < refetch_max_new_payloads)
unfolding is_current
current_open job lease now arts r c k =
    let e : r.url ≡ job.url = ground (arith, c, eq_of_eqb r.url job.url) in
    let going : is_done r.state ≡ false = ground (arith, c, k.1) in
    (going, subst (λ u. rotated u arts < refetch_max_new_payloads) e (k.0 going))

complete_found-IsCapped :
    (rows : List Row) (arts : List Artifact) (job : RefetchJob) (now : Time) (out : RefetchOutcome)
    (lease : Time) (o : Option Row)
    → find_row (is_current job lease now) rows ≡ o
    → Unique (urls rows)
    → IsCapped rows arts
    → (let (answer, rows', arts') = complete_found rows arts job now out o in IsCapped rows' arts')
unfolding complete_found complete_row
complete_found-IsCapped rows arts job now out lease none p u k = k
complete_found-IsCapped rows arts job now out lease (some r) p u k =
    let (c, within) = found-IsWithin (is_current job lease now) arts rows r p k in
    let (going, few) = current_open job lease now arts r c within in
    update-IsCapped job _ arts _ rows
      (λ s mine. advance-IsWithin job now out arts r s going few mine)
      (λ other far. outcome_other job.url other r.first_seen_at now out arts far)
      (others_are_jobs job lease now rows r u p) k

complete_leased-IsCapped :
    (rows : List Row) (arts : List Artifact) (job : RefetchJob) (now : Time) (out : RefetchOutcome)
    (o : Option Time)
    → Unique (urls rows)
    → IsCapped rows arts
    → (let (answer, rows', arts') = complete_leased rows arts job now out o in IsCapped rows' arts')
unfolding complete_leased
complete_leased-IsCapped rows arts job now out none u k = k
complete_leased-IsCapped rows arts job now out (some lease) u k =
    complete_found-IsCapped rows arts job now out lease (find_row (is_current job lease now) rows)
      refl u k

-- On a schedule with unique keys every completion, whatever it is told and whether it is refused or
-- not, keeps the cap: if every URL that is still scheduled has yielded fewer than four new payloads
-- by re-fetch and every finished one is under no lease, that holds afterwards.
pub complete_refetch-IsCapped :
    (rows : List Row) (arts : List Artifact) (job : RefetchJob) (now : Time) (out : RefetchOutcome)
    → Unique (urls rows)
    → IsCapped rows arts
    → (let (answer, rows', arts') = complete_refetch rows arts job now out in IsCapped rows' arts')
unfolding complete_refetch
complete_refetch-IsCapped rows arts job now out u k =
    elim (Bool-cases (out.is_ok && is_nil out.sha256)) [
      | inl bad ↦ rw bad k
      | inr good ↦ rw good (complete_leased-IsCapped rows arts job now out job.lease u k)
    ]
