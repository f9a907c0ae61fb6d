-- ===== src/Store/Lease/Exclusion.antt =====
-- Any number of processes on one database: every operation is one transaction, the read in front of
-- `AcquireCampaignLease` is a step of its own, and the steps of the processes interleave freely.
use shard_lure.Common.{
  ℕ, ◌+◌, ◌<◌, ◌≡◌, refl, true, false, List, [], ◌∷◌, Option, none, some, Bytes, eqb, eqb_refl, All,
  arith,
}
use shard_lure.Common.Time.{Time}
use shard_lure.Store.Lease.{Row, take, release, extend, lease_held}

-- One transaction of one process, at its own reading of the clock. A contender whose read was stale
-- reaches `try_take` all the same, so the read needs no step.
pub data Step : Type 0 where
  try_take : Bytes → Time → ℕ → Step
  try_extend : Bytes → Time → ℕ → Step
  let_go : Bytes → Step

pub run_step : Option Row → Step → Option Row
run_step row (try_take owner now ttl) = (take row owner now ttl).1
run_step row (try_extend owner now ttl) = (extend row owner now ttl).1
run_step row (let_go owner) = (release row owner).1

pub run : Option Row → List Step → Option Row
run row [] = row
run row (s ∷ steps) = run (run_step row s) steps

-- A step of another process than `owner`, which reads a time before `until`.
abbrev pub IsRival : Bytes → Time → Step → Type 0
IsRival owner until (try_take p now ttl) = (eqb owner p ≡ false) × (now < until)
IsRival owner until (try_extend p now ttl) = (eqb owner p ≡ false) × (now < until)
IsRival owner until (let_go p) = eqb owner p ≡ false

abbrev pub held_row : Bytes → Time → Option Row
held_row owner until = some (record { owner = some owner; offset = until })

rival_step :
    (owner : Bytes) (until : Time) (s : Step)
    → IsRival owner until s
    → run_step (held_row owner until) s ≡ held_row owner until
unfolding run_step take extend release
rival_step owner until (try_take p now ttl) h = ground arith
rival_step owner until (try_extend p now ttl) h = ground arith
rival_step owner until (let_go p) h = ground arith

-- While a lease runs, no sequence of steps of other processes changes it: none of them takes it,
-- extends it or releases it before it expires.
pub run-rivals :
    (owner : Bytes) (until : Time) (steps : List Step)
    → All (IsRival owner until) steps
    → run (held_row owner until) steps ≡ held_row owner until
unfolding run
run-rivals owner until [] h = refl
run-rivals owner until (s ∷ steps) (h, hs) =
    rw (rival_step owner until s h) (run-rivals owner until steps hs)

take_row :
    (row : Option Row) (owner : Bytes) (now : Time) (ttl : ℕ)
    → (take row owner now ttl).0 ≡ true
    → (take row owner now ttl).1 ≡ held_row owner (now + ttl)
unfolding take
take_row none owner now ttl h = refl
take_row (some r) owner now ttl h = ground arith

-- Whoever takes a lease for `ttl` may write as its holder at every time before `now + ttl`,
-- whatever the others did meanwhile, and no other process may.
pub take-run :
    (row : Option Row) (owner p : Bytes) (now : Time) (ttl : ℕ) (steps : List Step) (at : Time)
    → (take row owner now ttl).0 ≡ true
    → All (IsRival owner (now + ttl)) steps
    → at < now + ttl
    → eqb owner p ≡ false
    → (lease_held (run (take row owner now ttl).1 steps) owner at ≡ true)
      × (lease_held (run (take row owner now ttl).1 steps) p at ≡ false)
take-run row owner p now ttl steps at h rivals before other =
    rw (take_row row owner now ttl h, run-rivals owner (now + ttl) steps rivals)
      (unfold lease_held in (ground (arith, eqb_refl owner), ground (arith, other)))
