-- ===== src/Tests/Refetching.antt =====
-- internal/store/refetch.go at concrete inputs.
use shard_lure.Common.{
  map, has_prefix, to_lower, ℕ, ◌+◌, ◌-◌, ◌*◌, ◌≤◌, ◌≡◌, ◌≢◌, refl, true, List, [], ◌∷◌, none, some,
  Bytes, codes, eqb, All, any, pos, arith,
}
use shard_lure.Common.Time.{Time, hour, second, day}
use shard_lure.Common.Result.{ok}
use shard_lure.Store.Refetch.Schedule.{active, next_refetch, refetchable_url}
use shard_lure.Store.Refetch.Checks.{Timeline, checks_bound}
use shard_lure.Store.Refetch.Table.{Row, Unique, urls, update_where, find_row}
use shard_lure.Store.Refetch.Claim.{
  RefetchJob, claim_refetch, lease_one, settle, most_overdue, is_due, is_before, is_overdue,
  may_lease,
}
use shard_lure.Store.Refetch.Claim.Chosen.{IsEarliest, claim_refetch-IsChosen}
use shard_lure.Store.Refetch.Complete.{
  RefetchOutcome, complete_refetch, rotated, complete_leased, complete_found, complete_row,
  is_current, advance, record_outcome, capped_state, is_held, new_artifact, next_epoch,
  first_sighting,
}
use shard_lure.Store.Refetch.Complete.Capped.{IsCapped, complete_refetch-IsCapped}
use shard_lure.Store.Refetch.Claim.Progress.{is_job_answer, claim_refetch-is_due}
use shard_lure.Store.Refetch.Complete.Refused.{IsAnswered, complete_refetch-IsAnswered}
use mathlib.Core.List.{Memᴰ}
use shard_lure.Store.Refetch.Complete.Epochs.{
  has_epoch, UniqueEpochs, complete_refetch-UniqueEpochs,
}
use shard_lure.Store.Refetch.Table.{Artifact}
use shard_lure.Store.Refetch.Claim.{seed_refetch}
use shard_lure.Store.Refetch.Keys
use shard_lure.Store.Refetch.Keys.{Reachable, Reachable-Unique}
use shard_lure.Store.Refetch.Purge.{
  World, is_purgeable, purge_some, purge_loop, purge_refetch_schedule,
}
use shard_lure.Store.Refetch.Purge.Kept.{
  IsExpired, IsBusy, IsUntouched, IsSlow, purge_refetch_schedule-keep,
}
use shard_lure.Store.Refetch.Leases.{
  Step, claims, completes, releases, run, lease_kept, lease_respected, IsForeign,
}
use shard_lure.Store.Refetch.Leases.Rows.{IsLeased}

abbrev payload_url : Bytes
payload_url = codes "http://a/x"

abbrev other_url : Bytes
other_url = codes "http://b/y"

abbrev scheduled : Bytes → Time → Row
scheduled url next = record {
  url = url;
  first_seen_at = 100 * day;
  next_check_at = next;
  consecutive_failures = 0;
  state = active;
  checks = 2;
  last_sha256 = some (codes "aa");
  last_check_at = none;
  lease_until = none;
}

abbrev schedule : List Row
schedule =
    scheduled payload_url (100 * day + hour) ∷ scheduled other_url (100 * day + 2 * hour) ∷ []

abbrev noon : Time
noon = 100 * day + 12 * hour

abbrev lease : ℕ
lease = 600 * second

abbrev claimed : RefetchJob
claimed = record {
  url = payload_url;
  checks = 2;
  first_seen = 100 * day;
  lease = some (noon + lease);
}

schedule-Unique : Unique (urls schedule)
unfolding urls eqb
schedule-Unique = (refl, (refl, tt))

first_claim : (claim_refetch schedule noon (pos lease)).0 ≡ ok (some claimed)
unfolding claim_refetch lease_one settle most_overdue is_due is_before is_overdue may_lease find_row
    update_where eqb
first_claim = refl

claim_refetch-IsChosen_example :
    (r : Row) × Memᴰ r schedule
    × (is_due noon r ≡ true)
    × IsEarliest noon r schedule
    × (payload_url ≡ r.url)
    × (2 ≡ r.checks)
    × (some (noon + lease) ≡ some (noon + lease))
claim_refetch-IsChosen_example =
    claim_refetch-IsChosen schedule noon (pos lease) claimed first_claim

-- A worker whose lease ran out earlier, and one that claims meanwhile.
abbrev late_job : RefetchJob
late_job = record { url = payload_url; checks = 2; first_seen = 100 * day; lease = some (noon - 1) }

abbrev fetched_b : RefetchOutcome
fetched_b = record { is_ok = true; sha256 = codes "bb" }

abbrev meanwhile : List Step
meanwhile =
    completes late_job (noon + second) fetched_b
    ∷ claims (noon + 2 * second) (pos lease)
    ∷ releases late_job (noon + 3 * second)
    ∷ []

other_lease : {A : Type 0} → some (noon - 1) ≡ some (noon + lease) → A
other_lease e = ground (arith, e)

meanwhile-IsForeign : All (IsForeign payload_url (noon + lease)) meanwhile
meanwhile-IsForeign = ((λ e f. other_lease f), (omega arith, ((λ e f. other_lease f), tt)))

lease_kept_example :
    IsLeased payload_url
      (noon + lease)
      (run ((claim_refetch schedule noon (pos lease)).1, []) meanwhile).0
lease_kept_example =
    lease_kept schedule [] noon (pos lease) claimed meanwhile schedule-Unique first_claim
      meanwhile-IsForeign

abbrev second_job : RefetchJob
second_job = record {
  url = other_url;
  checks = 2;
  first_seen = 100 * day;
  lease = some (noon + second + lease);
}

second_claim :
    (claim_refetch
      (run ((claim_refetch schedule noon (pos lease)).1, []) []).0
      (noon + second)
      (pos lease)).0
    ≡ ok (some second_job)
unfolding run claim_refetch lease_one settle most_overdue is_due is_before is_overdue may_lease
    find_row update_where eqb
second_claim = refl

lease_respected_example : other_url ≢ payload_url
lease_respected_example =
    lease_respected schedule [] noon (pos lease) claimed [] (noon + second) (pos lease) second_job
      schedule-Unique first_claim tt (omega arith) second_claim

schedule-IsCapped : IsCapped schedule []
unfolding rotated
schedule-IsCapped = (((λ e. omega arith), (λ e. cc)), (((λ e. omega arith), (λ e. cc)), tt))

complete_refetch-IsCapped_example :
    (let (answer, rows', arts') = complete_refetch schedule [] claimed (noon + second) fetched_b in
      IsCapped rows' arts')
complete_refetch-IsCapped_example =
    complete_refetch-IsCapped schedule [] claimed (noon + second) fetched_b schedule-Unique
      schedule-IsCapped

-- A URL is seeded, claimed when its first check is due, and the check completes.
abbrev first_rows : List Row
first_rows = seed_refetch [] payload_url (100 * day) noon []

abbrev first_job : RefetchJob
first_job = record {
  url = payload_url;
  checks = 0;
  first_seen = 100 * day;
  lease = some (noon + hour + lease);
}

abbrev checked_rows : List Row
checked_rows =
    (complete_refetch (claim_refetch first_rows (noon + hour) (pos lease)).1 [] first_job
      (noon + hour + second) fetched_b).1

checked : Timeline (noon + hour + second) checked_rows
checked =
    Timeline.completes [] first_job (noon + hour + second) fetched_b
      (Timeline.claims (noon + hour) (pos lease)
        (Timeline.seeds payload_url (100 * day) noon [] (Timeline.starts noon) (omega arith)
          (omega arith))
        (omega arith))
      (omega arith)

checks_counted : map (λ (r : Row). r.checks) checked_rows ≡ 1 ∷ []
unfolding seed_refetch refetchable_url next_refetch claim_refetch lease_one settle most_overdue
    is_due is_before is_overdue may_lease find_row update_where eqb complete_refetch complete_leased
    complete_found complete_row is_current advance record_outcome capped_state is_held new_artifact
    next_epoch first_sighting rotated has_prefix to_lower
checks_counted = refl

checks_bound_example : All (λ r. r.checks ≤ 51) checked_rows
checks_bound_example = checks_bound checked

-- Ninety days later nothing but the row in flight is kept.
abbrev in_flight : Row
in_flight = record (scheduled other_url (190 * day)) {
  lease_until = some (190 * day + 60 * second);
}

abbrev old_schedule : List Row
old_schedule = scheduled payload_url (100 * day + hour) ∷ in_flight ∷ []

-- Between the transactions another process files a row anew.
abbrev filing : World
filing n rows = in_flight ∷ rows

filing-IsSlow : IsSlow filing
filing-IsSlow n rows = omega arith

purge_refetch_schedule-keep_example :
    (final : List Row) × (purge_refetch_schedule filing 3 (180 * day) (190 * day) old_schedule
      ≡ some final)
    × All (λ r. IsExpired (180 * day) (190 * day) r → IsBusy (190 * day) r) final
    × ((r : Row)
        → (IsExpired (180 * day) (190 * day) r → IsBusy (190 * day) r)
        → IsUntouched filing r
        → Memᴰ r old_schedule
        → Memᴰ r final)
purge_refetch_schedule-keep_example =
    purge_refetch_schedule-keep filing 3 (180 * day) (190 * day) old_schedule filing-IsSlow
      (omega arith)

old_purged :
    purge_refetch_schedule (λ n rows. rows) 3 (180 * day) (190 * day) old_schedule
    ≡ some (in_flight ∷ [])
unfolding purge_refetch_schedule purge_loop purge_some is_purgeable
old_purged = refl

abbrev first_artifact : Artifact
first_artifact = record {
  url = payload_url;
  fetch_epoch = 0;
  fetched = true;
  sha256 = codes "aa";
  provenance = none;
  first_observed_at = some (100 * day);
  last_refetch_at = none;
  last_successful_fetch_at = some (100 * day);
  depth = 0;
}

complete_refetch-UniqueEpochs_example :
    UniqueEpochs
      (complete_refetch
        (claim_refetch schedule noon (pos lease)).1
        (first_artifact ∷ [])
        claimed
        (noon + second)
        fetched_b).2
unfolding has_epoch
complete_refetch-UniqueEpochs_example =
    complete_refetch-UniqueEpochs (claim_refetch schedule noon (pos lease)).1 (first_artifact ∷ [])
      claimed (noon + second) fetched_b (refl, tt)

-- A capture seeds the schedule twice, and a worker claims from it.
abbrev seeded : List Row
seeded =
    seed_refetch (seed_refetch [] payload_url (100 * day) noon []) payload_url (100 * day) noon []

seeded_reach : Reachable (claim_refetch seeded (noon + day) (pos lease)).1
seeded_reach =
    Reachable.onward
      (Reachable.onward
        (Reachable.onward Reachable.empty (Keys.Step.seeds payload_url (100 * day) noon []))
        (Keys.Step.seeds payload_url (100 * day) noon []))
      (Keys.Step.claims (noon + day) (pos lease))

claim_refetch-is_due_example :
    is_job_answer (claim_refetch schedule noon (pos lease)).0 ≡ any (is_due noon) schedule
claim_refetch-is_due_example = claim_refetch-is_due schedule noon (pos lease) refl

complete_refetch-IsAnswered_example :
    IsAnswered (claim_refetch schedule noon (pos lease)).1 [] late_job (noon + second) fetched_b (
      complete_refetch
        (claim_refetch schedule noon (pos lease)).1
        []
        late_job
        (noon + second)
        fetched_b)
complete_refetch-IsAnswered_example =
    complete_refetch-IsAnswered (claim_refetch schedule noon (pos lease)).1 [] late_job
      (noon + second) fetched_b
