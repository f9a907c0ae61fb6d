-- ===== src/Campaign/Majority.antt =====
-- internal/campaign/group.go: `actorMajority`, by which the actors that used a value choose between
-- lineages. A Go map of texts to true is the list of its keys, its iteration the list's order.
pub mod Naive
pub mod Ranking
pub mod Tally
pub mod Agreement
pub mod Members
pub mod Counts
pub mod Winner
use shard_lure.Common.{
  ℕ, zero, suc, ◌+◌, max, Bool, true, false, ◌&&◌, ◌||◌, List, [], ◌∷◌, Option, none, some, Bytes,
  eqb, has_key, is_nil, length, map, ltb, leb, ◌==◌, if◌then◌else◌,
}

pub record ActorVotes : Type 0 where
  pub lins : List Bytes
  pub raws : List Bytes

-- `actors[a]`
unfoldable pub votes_of : List (Bytes × ActorVotes) → Bytes → Option ActorVotes
votes_of [] a = none
votes_of ((b, v) ∷ actors) a = let rest = votes_of actors a in if eqb b a then some v else rest

-- `actors[as[j]]` for every `j`
unfoldable pub all_votes : List (Bytes × ActorVotes) → List Bytes → List (Option ActorVotes)
all_votes actors [] = []
all_votes actors (a ∷ used) = votes_of actors a ∷ all_votes actors used

abbrev shifted : Option (ℕ × ActorVotes) → Option (ℕ × ActorVotes)
shifted none = none
shifted (some (j, v)) = some (suc j, v)

-- The heavier one of an actor and the heaviest behind it; the first one where both weigh the same.
abbrev pub heavier : Option ActorVotes → Option (ℕ × ActorVotes) → Option (ℕ × ActorVotes)
heavier none best = shifted best
heavier (some v) none = if is_nil v.raws then none else some (0, v)
heavier (some v) (some (j, w)) =
    if ltb (length v.raws) (length w.raws) then some (suc j, w) else some (0, v)

-- `h`, and `actors[as[h]]`; none where no actor carries a vote.
unfoldable pub heaviest : List (Option ActorVotes) → Option (ℕ × ActorVotes)
heaviest [] = none
heaviest (v ∷ votes) = heavier v (heaviest votes)

-- The others, `if j == h { continue }`
unfoldable pub others : ℕ → List (Option ActorVotes) → List (Option ActorVotes)
others h [] = []
others zero (v ∷ votes) = votes
others (suc h) (v ∷ votes) = v ∷ others h votes

-- `cnt[r]++`
unfoldable pub bump : List (Bytes × ℕ) → Bytes → List (Bytes × ℕ)
bump [] r = (r, 1) ∷ []
bump ((k, n) ∷ cnt) r = let rest = bump cnt r in if eqb k r then (k, n + 1) ∷ cnt else (k, n) ∷ rest

-- `for r := range av.raws { cnt[r]++ }`
unfoldable pub bump_all : List (Bytes × ℕ) → List Bytes → List (Bytes × ℕ)
bump_all cnt [] = cnt
bump_all cnt (r ∷ raws) = bump_all (bump cnt r) raws

unfoldable pub tally : List (Bytes × ℕ) → List (Option ActorVotes) → List (Bytes × ℕ)
tally cnt [] = cnt
tally cnt (none ∷ votes) = tally cnt votes
tally cnt (some v ∷ votes) = tally (bump_all cnt v.raws) votes

-- `if heavy.raws[r] { n++; cnt[r] = n }`
unfoldable pub credit : List Bytes → List (Bytes × ℕ) → List (Bytes × ℕ)
credit raws [] = []
credit raws ((k, n) ∷ cnt) = (if has_key raws k then (k, n + 1) else (k, n)) ∷ credit raws cnt

-- `best`
unfoldable pub best : List (Bytes × ℕ) → ℕ
best [] = 0
best ((k, n) ∷ cnt) = max n (best cnt)

-- The keys whose count is `n`.
unfoldable pub keys_at : ℕ → List (Bytes × ℕ) → List Bytes
keys_at n [] = []
keys_at n ((k, c) ∷ cnt) = let rest = keys_at n cnt in if c == n then k ∷ rest else rest

unfoldable pub all_keys : List (Bytes × ℕ) → List Bytes
all_keys [] = []
all_keys ((k, c) ∷ cnt) = k ∷ all_keys cnt

-- The only lineage of the list, from the winner so far; empty where it is not the only one.
unfoldable pub sole : Bytes → List Bytes → Bytes
sole win [] = win
sole win (l ∷ ls) =
    let first = sole l ls in
    let rest = sole win ls in if is_nil win then first else if eqb l win then rest else []

-- `for l := range heavy.lins { win = l }`
unfoldable pub last_of : List Bytes → Bytes
last_of [] = []
last_of (l ∷ []) = l
last_of (l ∷ k ∷ ls) = last_of (k ∷ ls)

module _ (rep : Bytes → Bytes) where
  -- What follows the tally.
  unfoldable pub decide : ActorVotes → List (Bytes × ℕ) → Bytes
  decide heavy cnt =
      if leb 2 (best cnt)
      then sole [] (map rep (keys_at (best cnt) cnt))
      else (if leb 2 (length heavy.lins)
          then []
          else sole (last_of heavy.lins) (map rep (all_keys cnt)))

  abbrev majority_of : List (Option ActorVotes) → Option (ℕ × ActorVotes) → Bytes
  majority_of votes none = []
  majority_of votes (some (h, heavy)) = decide heavy (credit heavy.raws (tally [] (others h votes)))

  -- `actorMajority`
  unfoldable pub actor_majority : List Bytes → List (Bytes × ActorVotes) → Bytes
  actor_majority used actors =
      let votes = all_votes actors used in majority_of votes (heaviest votes)
