-- ===== src/Tests/Leasing.antt =====
-- internal/store/campaign_lease.go at concrete inputs.
use shard_lure.Common.{
  ◌+◌, ◌*◌, ◌≡◌, refl, true, false, List, [], ◌∷◌, Option, none, some, Bytes, codes, eqb, arith,
}
use shard_lure.Common.Time.{Time, hour, second}
use shard_lure.Store.Lease.{Row, lease_held, take}
use shard_lure.Store.Lease.Exclusion.{Step, try_take, try_extend, let_go, run, take-run}

abbrev ann : Bytes
ann = codes "ann"

abbrev bob : Bytes
bob = codes "bob"

abbrev noon : Time
noon = 12 * hour

abbrev bobs : Option Row
bobs = some (record { owner = some bob; offset = noon + 60 * second })

abbrev anns_moves : List Step
anns_moves =
    try_take ann (noon + 5 * second) (60 * second)
    ∷ try_extend ann (noon + 9 * second) (60 * second)
    ∷ let_go ann
    ∷ []

take-run_example :
    (lease_held (run (take none bob noon (60 * second)).1 anns_moves) bob (noon + 30 * second)
      ≡ true)
    × (lease_held (run (take none bob noon (60 * second)).1 anns_moves) ann (noon + 30 * second)
        ≡ false)
unfolding eqb take
take-run_example =
    take-run none bob ann noon (60 * second) anns_moves (noon + 30 * second) refl
      ((refl, omega arith), ((refl, omega arith), (refl, tt))) (omega arith) refl
