-- ===== src/Store/Lease/Outcomes.antt =====
-- What the operations on the lease answer, and when.
use shard_lure.Common.{
  ◌+◌, ◌≤◌, ◌≡◌, ◌↔◌, ◌⊎◌, Bool, true, false, Option, none, some, Bytes, eqb_refl, eq_of_eqb, ap, ℤ,
  to_ℕ, if◌then◌else◌, arith,
}
use shard_lure.Common.Time.{Time}
use shard_lure.Common.Result.{Result, ok, err}
use shard_lure.Store.Lease.{
  Row, LeaseError, is_owner, is_invalid, held_elsewhere, take, acquire, renew, lease_held,
}

-- A lease is free for `owner`: absent, owner's own, or expired.
pub IsFree : Option Row → Bytes → Time → Type 0
IsFree none owner now = Unit
IsFree (some r) owner now = (is_owner r.owner owner ≡ true) ⊎ (r.offset ≤ now)

pub owner_of : (o : Option Bytes) (s : Bytes) → is_owner o s ≡ true → o ≡ some s
owner_of none s h = cc
owner_of (some t) s h = ap some (eq_of_eqb t s h)

abbrev pub is_ok_true : Result LeaseError Bool → Bool
is_ok_true (ok b) = b
is_ok_true (err e) = false

module _ (owner : Bytes) (now : Time) (ttl : ℤ) where
  -- The read in front of the transaction is only an optimisation: where it turns a caller away, the
  -- conditional write would have left the row as it is and answered the same.
  pub held_elsewhere-take :
      (row : Option Row)
      → held_elsewhere row owner now ≡ true
      → take row owner now (to_ℕ ttl) ≡ (false, row)
  unfolding held_elsewhere take
  held_elsewhere-take none h = cc
  held_elsewhere-take (some r) h = ground arith

  -- A valid call gets the lease exactly when it is free for the caller.
  pub acquire-IsFree :
      (row : Option Row)
      → is_invalid owner now ttl ≡ false
      → ((acquire row owner now ttl).0 ≡ ok true) ↔ IsFree row owner now
  unfolding acquire held_elsewhere take IsFree
  acquire-IsFree none v = (λ h. tt, λ f. ground (arith, v, eqb_refl owner))
  acquire-IsFree (some r) v =
      (λ h. ground (arith, v, h), λ f. ground (arith, v, f, eqb_refl owner, owner_of r.owner owner))

  -- After a call that got the lease the caller holds it until `now + ttl`; after any other call the
  -- row is what it was.
  pub acquire_row :
      (row : Option Row)
      → (acquire row owner now ttl).1 ≡ (
          if is_ok_true (acquire row owner now ttl).0
          then some (record { owner = some owner; offset = now + to_ℕ ttl })
          else row)
  unfolding acquire held_elsewhere take
  acquire_row none = ground (arith, eqb_refl owner)
  acquire_row (some r) = ground (arith, eqb_refl owner)

  -- `RenewCampaignLease` never takes a lease over and never brings one back: it succeeds exactly for
  -- the holder of a lease that has not expired, and then only moves the expiry.
  pub renew-lease_held :
      (row : Option Row)
      → is_invalid owner now ttl ≡ false
      → ((renew row owner now ttl).0 ≡ ok (lease_held row owner now))
        × ((renew row owner now ttl).1 ≡ (
            if lease_held row owner now
            then some (record { owner = some owner; offset = now + to_ℕ ttl })
            else row))
  unfolding renew lease_held
  renew-lease_held none v = ground (arith, v)
  renew-lease_held (some r) v = ground (arith, v, owner_of r.owner owner)
