-- ===== src/Script/Linking.antt =====
-- internal/script/normalize.go: whether a value that sessions share may link them. The percentage is
-- compared as a fraction, which the float64 quotient does as well for populations far below 2^50.
use shard_lure.Common.{
  ℕ, ◌*◌, ◌≤◌, ◌≡◌, Bool, true, false, ◌&&◌, not, Option, none, some, ltb, leb, if◌then◌else◌,
  arith,
}

-- Why a value does not link, or that it does; the source says so in words.
pub data Why : Type 0 where
  not_distinctive linked : Why
  used_by_many : ℕ → Why
  used_by_share : ℕ → ℕ → Why

abbrev pub max_link_actors : ℕ
max_link_actors = 25

abbrev pub min_common_actors : ℕ
min_common_actors = 5

abbrev pub max_link_percent : ℕ
max_link_percent = 2

-- `Common`; the second answer is none where the source answers an empty text
unfoldable pub common : ℕ → ℕ → Bool × Option Why
common actors population =
    if ltb max_link_actors actors
    then (true, some (used_by_many actors))
    else if leb min_common_actors actors
        && (ltb 0 population && ltb (max_link_percent * population) (actors * 100))
    then (true, some (used_by_share actors population))
    else (false, none)

abbrev why_of : Option Why → Why
why_of none = linked
why_of (some w) = w

-- `LinkDecision`
unfoldable pub link_decision : Bool → ℕ → ℕ → Bool × Why
link_decision distinctive actors population =
    if not distinctive
    then (false, not_distinctive)
    else if (common actors population).0
    then (false, why_of (common actors population).1)
    else (true, linked)

-- A value that links goes on linking when fewer actors carry it.
link_decision_fewer :
    (distinctive : Bool) (actors fewer population : ℕ)
    → (link_decision distinctive actors population).0 ≡ true
    → fewer ≤ actors
    → (link_decision distinctive fewer population).0 ≡ true
unfolding link_decision common
link_decision_fewer distinctive actors fewer population h l = ground (arith, h, l)

-- Whatever the population, a value of a distinctive script that at most four actors carry links, and
-- none that more than 25 carry does.
link_decision_bounds :
    (actors population : ℕ)
    → (actors ≤ 4 → (link_decision true actors population).0 ≡ true)
      × (26 ≤ actors → (link_decision true actors population).0 ≡ false)
unfolding link_decision common
link_decision_bounds actors population = (λ h. ground (arith, h), λ h. ground (arith, h))
