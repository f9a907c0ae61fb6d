-- ===== src/Tests/Electing.antt =====
-- internal/campaign/group.go, `actorMajority`, at concrete inputs.
use shard_lure.Common.{
  ◌≡◌, refl, false, List, [], ◌∷◌, Bytes, codes, eqb, is_nil, arith, if◌then◌else◌,
}
use shard_lure.Campaign.Majority.{
  ActorVotes, votes_of, all_votes, heaviest, others, bump, bump_all, tally, credit, best, keys_at,
  all_keys, sole, last_of, decide, actor_majority,
}
use shard_lure.Campaign.Majority.Naive.{naive_majority}
use shard_lure.Campaign.Majority.Winner.{actor_majority-naive_majority}

-- The lineage of `r1` and of `r2` is `alpha`, that of anything else `beta`.
abbrev lineage : Bytes → Bytes
lineage r =
    if eqb r (codes "r1")
    then codes "alpha"
    else if eqb r (codes "r2")
    then codes "alpha"
    else codes "beta"

abbrev electors : List (Bytes × ActorVotes)
electors =
    (
      codes "a",
      record { lins = codes "alpha" ∷ codes "beta" ∷ []; raws = codes "r1" ∷ codes "r3" ∷ [] },
    )
    ∷ (codes "b", record { lins = codes "alpha" ∷ []; raws = codes "r1" ∷ [] })
    ∷ (codes "c", record { lins = codes "beta" ∷ []; raws = codes "r4" ∷ [] })
    ∷ []

abbrev used_by : List Bytes
used_by = codes "a" ∷ codes "b" ∷ codes "c" ∷ codes "d" ∷ []

-- Two actors carry `r1`.
elected : actor_majority lineage used_by electors ≡ codes "alpha"
unfolding actor_majority decide all_votes votes_of heaviest others bump bump_all tally credit best
    keys_at all_keys sole last_of eqb
elected = refl

-- Without the second there is no majority.
tied : actor_majority lineage (codes "a" ∷ codes "c" ∷ []) electors ≡ []
unfolding actor_majority decide all_votes votes_of heaviest others bump bump_all tally credit best
    keys_at all_keys sole last_of eqb
tied = refl

lineage_named : (s : Bytes) → is_nil (lineage s) ≡ false
lineage_named s = ground arith

actor_majority-naive_majority_example :
    actor_majority lineage used_by electors ≡ naive_majority lineage (all_votes electors used_by)
unfolding all_votes votes_of eqb
actor_majority-naive_majority_example =
    actor_majority-naive_majority lineage used_by electors
      ((refl, (refl, tt)), ((refl, tt), ((refl, tt), (tt, tt))))
      (
        ((refl, (refl, tt)), (λ x k. k), (λ x k. k)),
        (((refl, tt), (λ x k. k), (λ x k. k)), (((refl, tt), (λ x k. k), (λ x k. k)), (tt, tt))),
      )
      (λ s k. lineage_named s)
