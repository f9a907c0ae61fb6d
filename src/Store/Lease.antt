-- ===== src/Store/Lease.antt =====
-- internal/store/campaign_lease.go: the lease that lets one process run the campaign worker. The
-- state is the one row of ingest_state that the statements name; `owner` is `none` where head_sig
-- is NULL. Every statement runs in one write transaction; a failing database changes nothing and is
-- not modelled. Times and the stored unix nanoseconds are on one scale.
pub mod Outcomes
pub mod Exclusion
use shard_lure.Common.{
  ℕ, ◌+◌, is_nil, Bool, true, false, ◌&&◌, ◌||◌, not, List, [], ◌∷◌, Option, none, some, Bytes, eqb,
  ltb, leb, ℤ, pos, negsuc, is_positive, to_ℕ, if◌then◌else◌,
}
use shard_lure.Common.Time.{Time, is_zero, hour, after}
use shard_lure.Common.Result.{Result, ok, err}

pub record Row : Type 0 where
  pub owner : Option Bytes
  pub offset : Time

pub data LeaseError : Type 0 where
  lease_invalid : LeaseError

-- `NullString.String`: the empty text for NULL.
abbrev pub text_of : Option Bytes → Bytes
text_of none = []
text_of (some s) = s

abbrev pub is_owner : Option Bytes → Bytes → Bool
is_owner none owner = false
is_owner (some s) owner = eqb s owner

-- `owner == "" || now.IsZero() || ttl <= 0 || ttl > time.Hour`
unfoldable pub is_invalid : Bytes → Time → ℤ → Bool
is_invalid owner now ttl =
    is_nil owner || (is_zero now || (not (is_positive ttl) || ltb hour (to_ℕ ttl)))

-- `CampaignLeaseHolder`
unfoldable pub lease_holder : Option Row → Bytes × Time
lease_holder none = ([], 0)
lease_holder (some r) = (text_of r.owner, r.offset)

-- The read in front of the transaction: held by another process and not expired.
unfoldable pub held_elsewhere : Option Row → Bytes → Time → Bool
unfolding lease_holder
held_elsewhere row owner now =
    let (holder, until) = lease_holder row in
    not (is_nil holder) && (not (eqb holder owner) && after until now)

-- The conditional upsert.
unfoldable pub upsert : Option Row → Bytes → Time → ℕ → Option Row
upsert none owner now ttl = some (record { owner = some owner; offset = now + ttl })
upsert (some r) owner now ttl =
    if is_owner r.owner owner || leb r.offset now
    then some (record { owner = some owner; offset = now + ttl })
    else some r

-- The read-back.
unfoldable pub holds : Option Row → Bytes → Bool
holds none owner = false
holds (some r) owner = is_owner r.owner owner

-- The transaction of `AcquireCampaignLease`.
unfoldable pub take : Option Row → Bytes → Time → ℕ → Bool × Option Row
unfolding upsert holds
take row owner now ttl = let row' = upsert row owner now ttl in (holds row' owner, row')

-- `AcquireCampaignLease`, with nothing between the read and the transaction.
unfoldable pub acquire : Option Row → Bytes → Time → ℤ → Result LeaseError Bool × Option Row
acquire row owner now ttl =
    if is_invalid owner now ttl
    then (err lease_invalid, row)
    else if held_elsewhere row owner now
    then (ok false, row)
    else (let (held, row') = take row owner now (to_ℕ ttl) in (ok held, row'))

-- `ReleaseCampaignLease`
unfoldable pub release : Option Row → Bytes → Result LeaseError (Unit {0}) × Option Row
release row owner =
    if is_nil owner
    then (err lease_invalid, row)
    else (ok tt, if holds row owner then none else row)

-- The update of `RenewCampaignLease`: whether it touched the row, and the row.
unfoldable pub extend : Option Row → Bytes → Time → ℕ → Bool × Option Row
extend none owner now ttl = (false, none)
extend (some r) owner now ttl =
    if is_owner r.owner owner && ltb now r.offset
    then (true, some (record r { offset = now + ttl }))
    else (false, some r)

-- `RenewCampaignLease`
unfoldable pub renew : Option Row → Bytes → Time → ℤ → Result LeaseError Bool × Option Row
unfolding extend
renew row owner now ttl =
    if is_invalid owner now ttl
    then (err lease_invalid, row)
    else (let (held, row') = extend row owner now (to_ℕ ttl) in (ok held, row'))

-- `campaignLeaseHeldTx`
unfoldable pub lease_held : Option Row → Bytes → Time → Bool
lease_held none owner now = false
lease_held (some r) owner now = is_owner r.owner owner && ltb now r.offset
