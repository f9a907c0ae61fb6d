-- ===== src/Store/Refetch/Leases/Rows.antt =====
-- Updates of refetch_schedule and the rows that are under a lease.
use shard_lure.Common.{
  ℕ, zero, suc, ◌<◌, ◌≡◌, inl, inr, refl, subst, ap, Bool, true, false, is_some, List, [], ◌∷◌,
  none, some, Bytes, eqb, eqb_refl, eq_of_eqb, has_key, All, Bool-cases, arith,
}
use shard_lure.Common.Time.{Time}
use shard_lure.Store.Refetch.Table.{Row, update_where, find_row, urls, Unique}
use shard_lure.Store.Refetch.Claim.{RefetchJob, is_overdue, settle, may_lease}
use shard_lure.Store.Refetch.Complete.{}

-- Every row of the URL is leased until that time.
abbrev pub IsLeased : Bytes → Time → List Row → Type 0
IsLeased url until = All (λ r. eqb r.url url ≡ true → r.lease_until ≡ some until)

pub urls-settle : (n : ℕ) (now : Time) (rows : List Row) → urls (settle n now rows) ≡ urls rows
unfolding settle urls
urls-settle n now [] = refl
urls-settle zero now (r ∷ rows) = refl
urls-settle (suc n) now (r ∷ rows) =
    ground (arith, urls-settle n now rows, urls-settle (suc n) now rows)

module _ (url : Bytes) (until : Time) (set : Row → Row) (p : Row → Bool) where
  -- Rows with other keys are no concern.
  other_rows :
      (rows : List Row)
      → has_key (urls rows) url ≡ false
      → ((r : Row) → (set r).url ≡ r.url)
      → IsLeased url until (update_where p set rows)
  unfolding urls update_where
  other_rows [] h k = tt
  other_rows (r ∷ rows) h k = (
    λ e. ground (arith, h, e, k r, eq_of_eqb r.url url, eqb_refl url),
    other_rows rows (ground (arith, h)) k,
  )

absent_row :
    (job : RefetchJob) (now : Time) (rows : List Row)
    → has_key (urls rows) job.url ≡ false
    → find_row (may_lease job now) rows ≡ none
unfolding find_row urls may_lease
absent_row job now [] h = refl
absent_row job now (r ∷ rows) h =
    ground (arith, absent_row job now rows, eq_of_eqb r.url job.url, eqb_refl job.url)

abbrev pub leased : Time → Row → Row
leased until r = record r { lease_until = some until }

same_url : (job : RefetchJob) (now : Time) (r : Row) → may_lease job now r ≡ true → r.url ≡ job.url
unfolding may_lease
same_url job now r h = ground (arith, eq_of_eqb r.url job.url)

found_later :
    (job : RefetchJob) (now : Time) (r : Row) (rows : List Row)
    → may_lease job now r ≡ false
    → is_some (find_row (may_lease job now) (r ∷ rows)) ≡ true
    → is_some (find_row (may_lease job now) rows) ≡ true
unfolding find_row
found_later job now r rows m h = ground arith

-- The fenced update leases every row of the job's URL.
pub lease_rows :
    (job : RefetchJob) (now until : Time) (rows : List Row)
    → Unique (urls rows)
    → is_some (find_row (may_lease job now) rows) ≡ true
    → IsLeased job.url until (update_where (may_lease job now) (leased until) rows)
unfolding urls update_where
lease_rows job now until [] u h = tt
lease_rows job now until (r ∷ rows) (fresh, u) h = elim (Bool-cases (may_lease job now r)) [
  | inl m ↦ (
    λ _. rw m,
    other_rows job.url until (leased until) (may_lease job now) rows
        (subst (λ k. has_key (urls rows) k ≡ false) (same_url job now r m) fresh) (λ s. refl),
  )
  | inr m ↦
      let later = found_later job now r rows m h in
      (
        λ e. ground (arith, m, later, fresh, e, eq_of_eqb r.url job.url, absent_row job now rows),
        lease_rows job now until rows u later,
      )
]

pub settle-IsLeased :
    (n : ℕ) (now until : Time) (url : Bytes) (rows : List Row)
    → now < until
    → IsLeased url until rows
    → IsLeased url until (settle n now rows)
unfolding settle is_overdue
settle-IsLeased n now until url [] h l = tt
settle-IsLeased zero now until url (r ∷ rows) h l = l
settle-IsLeased (suc n) now until url (r ∷ rows) h (l, ls) = elim (Bool-cases (is_overdue now r)) [
  | inl o ↦ rw o ((λ e. ground (arith, l e, o)), settle-IsLeased n now until url rows h ls)
  | inr o ↦ rw o (l, settle-IsLeased (suc n) now until url rows h ls)
]

pub update-IsLeased :
    (p : Row → Bool) (f : Row → Row) (url : Bytes) (until : Time) (rows : List Row)
    → ((r : Row) → (f r).url ≡ r.url)
    → ((r : Row)
        → p r ≡ true
        → (eqb r.url url ≡ true → r.lease_until ≡ some until)
        → eqb r.url url ≡ false)
    → IsLeased url until rows
    → IsLeased url until (update_where p f rows)
unfolding update_where
update-IsLeased p f url until [] k far l = tt
update-IsLeased p f url until (r ∷ rows) k far (l, ls) = elim (Bool-cases (p r)) [
  | inl m ↦ rw m (
    (λ e. cc (ap (λ u. eqb u url) (k r), e, far r m l)),
    update-IsLeased p f url until rows k far ls,
  )
  | inr m ↦ rw m (l, update-IsLeased p f url until rows k far ls)
]

pub found-IsLeased :
    (p : Row → Bool) (url : Bytes) (until : Time) (rows : List Row) (r : Row)
    → find_row p rows ≡ some r
    → IsLeased url until rows
    → (p r ≡ true) × (eqb r.url url ≡ true → r.lease_until ≡ some until)
unfolding find_row
found-IsLeased p url until [] r h l = cc
found-IsLeased p url until (s ∷ rows) r h (l, ls) = elim (Bool-cases (p s)) [
  | inl m ↦
      let e : s ≡ r = ground (arith, h, m) in
      subst (λ t. (p t ≡ true) × (eqb t.url url ≡ true → t.lease_until ≡ some until)) e (m, l)
  | inr m ↦ found-IsLeased p url until rows r (ground (arith, h, m)) ls
]
