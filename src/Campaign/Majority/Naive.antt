-- ===== src/Campaign/Majority/Naive.antt =====
-- What `actorMajority` promises, read off the votes: the lineage of the IDs that the most actors carry.
use shard_lure.Common.{
  ℕ, ◌+◌, Bool, List, [], ◌∷◌, ◌++◌, Option, none, some, Bytes, has_key, all, map, leb,
  if◌then◌else◌,
}
use shard_lure.Campaign.Majority.{ActorVotes, sole}

abbrev pub raws_of : Option ActorVotes → List Bytes
raws_of none = []
raws_of (some v) = v.raws

abbrev pub one_if : Bool → ℕ
one_if b = if b then 1 else 0

-- The actors that carry the ID.
unfoldable pub score : List (Option ActorVotes) → Bytes → ℕ
score [] r = 0
score (v ∷ votes) r = one_if (has_key (raws_of v) r) + score votes r

-- The IDs that some actor carries.
unfoldable pub carried : List (Option ActorVotes) → List Bytes
carried [] = []
carried (v ∷ votes) = raws_of v ++ carried votes

-- No ID is carried by more actors.
abbrev pub is_leader : List (Option ActorVotes) → Bytes → Bool
is_leader votes r = all (λ s. leb (score votes s) (score votes r)) (carried votes)

unfoldable pub keep : (Bytes → Bool) → List Bytes → List Bytes
keep p [] = []
keep p (r ∷ rs) = let rest = keep p rs in if p r then r ∷ rest else rest

abbrev pub leaders : List (Option ActorVotes) → List Bytes
leaders votes = keep (is_leader votes) (carried votes)

-- The lineage of all of them, or none.
unfoldable pub naive_majority : (Bytes → Bytes) → List (Option ActorVotes) → Bytes
naive_majority rep votes = sole [] (map rep (leaders votes))
