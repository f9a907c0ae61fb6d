-- ===== src/Campaign/Aliases.antt =====
-- internal/campaign/group.go: the aliases by which an operator's merges join campaigns.
pub mod Chains
pub mod Partition
use shard_lure.Common.{
  Map, lookup, assign, ℕ, zero, suc, ◌+◌, Bool, true, false, ◌&&◌, not, List, [], ◌∷◌, Option, none,
  some, Bytes, codes, eqb, leb, length, is_nil, if◌then◌else◌,
}

abbrev pub Aliases : Type 0
Aliases = Map

-- `for i := 0; i <= len(aliases); i++`, with `n` rounds left
unfoldable pub follow : Aliases → ℕ → Bytes → Bytes
follow aliases zero id = id
follow aliases (suc n) id = elim (lookup aliases id) [
  | none ↦ id
  | some next ↦ let rest = follow aliases n next in if eqb next id then id else rest
]

-- `Resolve`
unfoldable pub resolve : Aliases → Bytes → Bytes
resolve aliases id = follow aliases (length aliases + 1) id

-- The fields of `Edit` that the merges read; the database numbers edits from 1.
pub record Edit : Type 0 where
  pub id : ℕ
  pub action : Bytes
  pub campaign_id : Bytes
  pub arg : Bytes

-- `sort.SliceStable` by ID, by insertion
unfoldable pub insert_edit : Edit → List Edit → List Edit
insert_edit e [] = e ∷ []
insert_edit e (d ∷ edits) =
    let rest = insert_edit e edits in if leb e.id d.id then e ∷ d ∷ edits else d ∷ rest

unfoldable pub sort_edits : List Edit → List Edit
sort_edits [] = []
sort_edits (e ∷ edits) = insert_edit e (sort_edits edits)

abbrev pub is_merge : Edit → Bool
is_merge e = eqb e.action (codes "merge") && (not (is_nil e.campaign_id) && not (is_nil e.arg))

-- `if from, to := …; from != to { mergeAlias[from] = to }`
unfoldable pub link : Aliases → Bytes → Bytes → Aliases
link aliases from to = if eqb from to then aliases else assign aliases from to

unfoldable pub merge_edit : Aliases → Edit → Aliases
merge_edit aliases e =
    if is_merge e
    then link aliases (resolve aliases e.campaign_id) (resolve aliases e.arg)
    else aliases

unfoldable pub merge_edits : Aliases → List Edit → Aliases
merge_edits aliases [] = aliases
merge_edits aliases (e ∷ edits) = merge_edits (merge_edit aliases e) edits

-- `MergeAliases`
unfoldable pub merge_aliases : List Edit → Aliases
merge_aliases edits = merge_edits [] (sort_edits edits)
