-- ===== src/Store/Refetch/Checks/Room.antt =====
-- The room that internal/store/refetch.go leaves for checks of one row.
use shard_lure.Common.{
  ℕ, ◌+◌, ◌-◌, ◌≤◌, ◌<◌, ◌≡◌, ◌≢◌, refl, ap, true, false, is_nil, is_some, none, some, Bytes, eqb,
  if◌then◌else◌, arith,
}
use shard_lure.Common.Time.{Time}
use shard_lure.Store.Refetch.Schedule.{State, done, is_done, refetch_max_age, next_refetch}
use shard_lure.Store.Refetch.Schedule.Bound.{
  next_refetch-IsPlan, plan_ahead, most, most_mono, most_pos, most_step,
}
use shard_lure.Store.Refetch.Table.{Row}
use shard_lure.Store.Refetch.Claim.{RefetchJob, is_due}
use shard_lure.Store.Refetch.Complete.{
  RefetchOutcome, refetch_release_delay, is_current, is_leased_to, advance,
}

-- The room that is left for checks of a row that is still scheduled: those that fit between its next
-- check and the tenth day. A row under a lease was due when it was claimed.
abbrev pub HasRoom : Time → Row → Type 0
HasRoom t r =
    (r.first_seen_at ≤ r.next_check_at)
    × (r.checks + most (r.next_check_at - r.first_seen_at) ≤ 51)
    × (is_some r.lease_until ≡ true
        → (r.next_check_at ≤ t) × (r.next_check_at < r.first_seen_at + refetch_max_age))

abbrev pub IsSpaced : Time → Row → Type 0
IsSpaced t r =
    (r.checks ≤ 51)
    × (is_done r.state ≡ true → r.lease_until ≡ none)
    × (is_done r.state ≡ false → HasRoom t r)

pub later-IsSpaced : (t now : Time) (r : Row) → t ≤ now → IsSpaced t r → IsSpaced now r
later-IsSpaced t now r h (few, idle, room) = (
  few,
  idle,
  λ going. let (a, b, c) = room going in (a, b, λ l. (omega (arith, (c l).0, h), (c l).1)),
)

most_zero : most 0 ≤ 51
unfolding most
most_zero = omega arith

going_lem : (s : State) → is_done s ≡ false → s ≢ done
going_lem s h e = cc (ap is_done e, h)

-- A plan that goes on lies ahead.
ahead :
    (first now failures : ℕ)
    → is_done (next_refetch first now failures).1 ≡ false
    → now ≤ (next_refetch first now failures).0
ahead first now failures h =
    (plan_ahead first now (next_refetch first now failures) failures (going_lem _ h)
      (next_refetch-IsPlan first now failures)).0

pub seeded-IsSpaced :
    (url : Bytes) (first now : Time) (sha : Bytes)
    → first ≤ now
    → (let (next, state) = next_refetch first now 0 in
        IsSpaced now record {
          url = url;
          first_seen_at = first;
          next_check_at = if is_done state then now else next;
          consecutive_failures = 0;
          state = state;
          checks = 0;
          last_sha256 = if is_nil sha then none else some sha;
          last_check_at = none;
          lease_until = none;
        })
seeded-IsSpaced url first now sha h = (
  omega arith,
  (λ e. refl),
  λ going. rw going (
      let a = ahead first now 0 going in
      (
        omega (arith, a, h),
        omega (arith, most_zero, most_mono 0 ((next_refetch first now 0).0 - first) (omega arith)),
        λ l. cc,
      )),
)

-- The claimed row was due.
pub lease-IsSpaced :
    (now until : Time) (r : Row)
    → is_due now r ≡ true
    → IsSpaced now r
    → IsSpaced now (record r { lease_until = some until })
unfolding is_due
lease-IsSpaced now until r due (few, idle, room) = (
  few,
  (λ e. absurd (ground (arith, due, e))),
  λ going. let (a, b, c) = room going in (a, b, λ l. (ground (arith, due), ground (arith, due))),
)

-- The completed row.
pub advance-IsSpaced :
    (now : Time) (out : RefetchOutcome) (failures : ℕ) (state : State) (r : Row)
    → is_done r.state ≡ false
    → is_some r.lease_until ≡ true
    → (is_done state ≡ false → is_done (next_refetch r.first_seen_at now failures).1 ≡ false)
    → IsSpaced now r
    → IsSpaced now (advance now out failures (next_refetch r.first_seen_at now failures) state r)
unfolding advance
advance-IsSpaced now out failures state r going leased plan (few, idle, room) =
    let (a, b, c) = room going in
    let (d, e) = c leased in
    let first = r.first_seen_at in
    let pos = most_pos (r.next_check_at - first) (omega (arith, a, e)) in
    (
      omega (arith, b, pos),
      (λ x. refl),
      λ go. rw go (
          let h = ahead first now failures (plan go) in
          (
            omega (arith, a, d, h),
            omega (
              arith,
              b,
              most_step first now failures (omega (arith, a, d)) (going_lem _ (plan go)),
              most_mono (r.next_check_at - first) (now - first) (omega (arith, d)),
            ),
            λ l. cc,
          )),
    )

pub current_lem :
    (job : RefetchJob) (lease now : Time) (r : Row)
    → is_current job lease now r ≡ true
    → IsSpaced now r
    → (is_done r.state ≡ false) × (is_some r.lease_until ≡ true) × (eqb r.url job.url ≡ true)
unfolding is_current
current_lem job lease now r c (few, idle, room) =
    (ground (arith, c, idle), ground (arith, c), ground (arith, c))

pub released-IsSpaced :
    (job : RefetchJob) (lease now : Time) (r : Row)
    → IsSpaced now r
    → is_leased_to job lease r ≡ true
    → IsSpaced now (record r { lease_until = none; next_check_at = now + refetch_release_delay })
released-IsSpaced job lease now r (few, idle, room) h = (
  few,
  (λ e. refl),
  λ going.
      let (a, b, c) = room going in
      let (d, e) = c (ground (arith, h)) in
      (
        omega (arith, a, d),
        omega (
          arith,
          b,
          most_mono (r.next_check_at - r.first_seen_at)
              (now + refetch_release_delay - r.first_seen_at) (omega (arith, d)),
        ),
        λ l. cc,
      ),
)
