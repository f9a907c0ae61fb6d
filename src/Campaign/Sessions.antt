-- ===== src/Campaign/Sessions.antt =====
-- internal/campaign/group.go: the union-find over session IDs by which sessions that share a value form
-- one component. A missing key reads as the empty text.
pub mod Paths
pub mod Forest
pub mod Union
pub mod Components
pub mod Steps
pub mod Partition
use shard_lure.Common.{
  ℕ, zero, suc, ◌+◌, Bool, true, false, ◌&&◌, ◌||◌, List, [], ◌∷◌, ◌++◌, Option, none, some, Bytes,
  eqb, ltb, ◌==◌, length, is_some, if◌then◌else◌, Map, lookup, assign,
}

-- `u[x]`
abbrev pub value_of : Option Bytes → Bytes
value_of none = []
value_of (some p) = p

unfoldable pub parent : Map → Bytes → Bytes
parent u x = value_of (lookup u x)

-- `for u[x] != x { u[x] = u[u[x]]; x = u[x] }`, with `n` rounds left
unfoldable pub climb : Map → ℕ → Bytes → Bytes × Map
climb u zero x = (x, u)
climb u (suc n) x =
    let g = parent u (parent u x) in
    let rest = climb (assign u x g) n g in if eqb (parent u x) x then (x, u) else rest

-- `find`
unfoldable pub find : Map → Bytes → Bytes × Map
find u x = climb u (length u) x

-- `s < t` on strings
unfoldable pub before : Bytes → Bytes → Bool
before [] [] = false
before [] (d ∷ t) = true
before (c ∷ s) [] = false
before (c ∷ s) (d ∷ t) = ltb c d || c == d && before s t

-- The switch of `union`.
unfoldable pub join_roots : Map → Bytes → Bytes → Map
join_roots u ra rb =
    if eqb ra rb then u else if before ra rb then assign u rb ra else assign u ra rb

-- `union`
unfoldable pub union : Map → Bytes → Bytes → Map
union u a b = let (ra, u') = find u a in let (rb, u'') = find u' b in join_roots u'' ra rb

-- The fields of `Occurrence` that the union reads, with its entry in `active`, true when there is none.
pub record Occurrence : Type 0 where
  pub kind : Bytes
  pub value : Bytes
  pub session_id : Bytes
  pub active : Bool

-- `vkey`
abbrev pub vkey : Occurrence → Bytes
vkey x = x.kind ++ (0 ∷ x.value)

-- `if _, ok := u[x]; !ok { u[x] = x }`
unfoldable pub add_session : Map → Bytes → Map
add_session u x = if is_some (lookup u x) then u else assign u x x

-- `firstOf` holds the session of the first occurrence of a value, which is all that is read of it.
unfoldable pub join_first : Map → Map → Occurrence → Option Bytes → Map × Map
join_first u first_of x (some s) = (union u s x.session_id, first_of)
join_first u first_of x none = (u, assign first_of (vkey x) x.session_id)

-- One round of the loop of `sessionUnion`
unfoldable pub add_occurrence : Map × Map → Occurrence → Map × Map
add_occurrence (u, first_of) x =
    if x.active
    then join_first (add_session u x.session_id) first_of x (lookup first_of (vkey x))
    else (u, first_of)

unfoldable pub add_occurrences : Map × Map → List Occurrence → Map × Map
add_occurrences state [] = state
add_occurrences state (x ∷ occ) = add_occurrences (add_occurrence state x) occ

-- `sessionUnion`
unfoldable pub session_union : List Occurrence → Map
session_union occ = (add_occurrences ([], []) occ).0
