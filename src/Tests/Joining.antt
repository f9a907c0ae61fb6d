-- ===== src/Tests/Joining.antt =====
-- internal/campaign/group.go at concrete inputs.
use mathlib.Core.List.{Memᴰ}
use shard_lure.Common.{
  ℕ, ◌≡◌, true, ◌↔◌, refl, none, List, [], ◌∷◌, Bytes, codes, eqb, lookup, assign,
}
use shard_lure.Campaign.Sessions.{
  Occurrence, parent, climb, find, before, join_roots, union, add_session, join_first,
  add_occurrence, add_occurrences, session_union,
}
use shard_lure.Campaign.Sessions.Partition.{session_union-Linked, session_union_root}
use shard_lure.Campaign.Sessions.Components
use shard_lure.Campaign.Aliases.{
  Edit, follow, resolve, insert_edit, sort_edits, link, merge_edit, merge_edits, merge_aliases,
}
use shard_lure.Campaign.Aliases.Partition.{Linked, merge_aliases-Linked, merge_aliases_root}

abbrev merging : ℕ → Bytes → Bytes → Edit
merging id from to = record { id = id; action = codes "merge"; campaign_id = from; arg = to }

-- Recorded out of order; the last would close a circle.
abbrev edits : List Edit
edits =
    merging 2 (codes "c-b") (codes "c-c")
    ∷ merging 1 (codes "c-a") (codes "c-b")
    ∷ record { id = 3; action = codes "rename"; campaign_id = codes "c-d"; arg = codes "Mirai" }
    ∷ merging 4 (codes "c-c") (codes "c-a")
    ∷ []

aliases : merge_aliases edits ≡ (codes "c-a", codes "c-b") ∷ (codes "c-b", codes "c-c") ∷ []
unfolding merge_aliases merge_edits merge_edit link sort_edits insert_edit resolve follow lookup
    assign eqb
aliases = refl

merge_aliases_root_example :
    lookup (merge_aliases edits) (resolve (merge_aliases edits) (codes "c-a")) ≡ none
merge_aliases_root_example = merge_aliases_root edits (codes "c-a")

merge_aliases-Linked_example :
    Linked edits (codes "c-a") (codes "c-c")
    ↔ (resolve (merge_aliases edits) (codes "c-a") ≡ resolve (merge_aliases edits) (codes "c-c"))
merge_aliases-Linked_example = merge_aliases-Linked edits (codes "c-a") (codes "c-c")

-- Three sessions in a chain of two values, and one on its own.
abbrev seen : Bytes → Bytes → Bytes → Occurrence
seen kind value session = record { kind = kind; value = value; session_id = session; active = true }

abbrev downloader : Occurrence
downloader = seen (codes "payload") (codes "aa") (codes "s3")

abbrev planter : Occurrence
planter = seen (codes "key") (codes "SHA256:k") (codes "s1")

abbrev occurrences : List Occurrence
occurrences =
    downloader
    ∷ seen (codes "payload") (codes "aa") (codes "s2")
    ∷ seen (codes "key") (codes "SHA256:k") (codes "s2")
    ∷ seen (codes "payload") (codes "bb") (codes "s4")
    ∷ planter
    ∷ []

components :
    session_union occurrences
    ≡ (codes "s3", codes "s2")
      ∷ (codes "s2", codes "s1")
      ∷ (codes "s4", codes "s4")
      ∷ (codes "s1", codes "s1")
      ∷ []
unfolding session_union add_occurrences add_occurrence join_first add_session union join_roots
    before find climb parent lookup assign eqb
components = refl

session_union-Linked_example : Components.Linked occurrences (codes "s3") (codes "s1") ↔ (
    (find (session_union occurrences) (codes "s3")).0
    ≡ (find (session_union occurrences) (codes "s1")).0)
session_union-Linked_example =
    session_union-Linked occurrences downloader planter (Memᴰ.head refl)
      (Memᴰ.tail (Memᴰ.tail (Memᴰ.tail (Memᴰ.tail (Memᴰ.head refl))))) refl refl

session_union_root_example :
    parent (session_union occurrences) (find (session_union occurrences) (codes "s3")).0
    ≡ (find (session_union occurrences) (codes "s3")).0
session_union_root_example = session_union_root occurrences downloader (Memᴰ.head refl) refl
