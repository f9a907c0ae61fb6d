-- ===== src/Campaign/Sessions/Partition.antt =====
-- The components of `sessionUnion` are the sessions that shared values connect.
use mathlib.Core.List.{Memᴰ}
use shard_lure.Common.{
  ◌≡◌, ◌↔◌, false≢true, refl, sym, ap, ◌∙◌, true, List, [], some, Bytes, is_some, Map, lookup,
  subst,
}
use shard_lure.Campaign.Sessions.{find, parent, Occurrence, vkey, add_occurrences, session_union}
use shard_lure.Campaign.Sessions.Paths.{same_value}
use shard_lure.Campaign.Sessions.Union.{Ascent-has, Ascent-root, find-Kept}
use shard_lure.Campaign.Sessions.Components.{Linked, Together, Holds, Covered}
use shard_lure.Campaign.Sessions.Steps.{add_occurrences-Holds}

module _ (occ : List Occurrence) where
  empty-Holds : Holds occ ([], [])
  unfolding lookup
  empty-Holds = (
    (λ x h. absurd (false≢true h)),
    (λ x h. absurd (false≢true h)),
    λ k s e. absurd (false≢true (ap is_some e)),
  )

  abbrev final : Map × Map
  final = add_occurrences ([], []) occ

  all_added :
      Holds occ final × ((y : Occurrence) → Memᴰ y occ → y.active ≡ true → Covered occ final y)
  all_added =
      let (h, keeps, covers) =
        add_occurrences-Holds occ ([], []) occ (λ x there. there) empty-Holds in
      (h, covers)

  Together-find : (a b : Bytes) → Together final.0 a b → (find final.0 a).0 ≡ (find final.0 b).0
  Together-find a b (r, n, m, s, t) =
      let (forest, sound, named) = all_added.0 in
      (find-Kept final.0 forest s).0 ∙ sym (find-Kept final.0 forest t).0

  Linked-find : {a b : Bytes} → Linked occ a b → (find final.0 a).0 ≡ (find final.0 b).0
  Linked-find (Linked.shared {x} {y} x_there y_there x_on y_on e) =
      let (s, seen, x_met) = all_added.1 x x_there x_on in
      let (t, seen', y_met) = all_added.1 y y_there y_on in
      let one : s ≡ t =
        same_value final.1 (vkey y) s t (subst (λ k. lookup final.1 k ≡ some s) e seen) seen' in
      Together-find x.session_id s x_met
      ∙ (ap (λ z. (find final.0 z).0) one ∙ sym (Together-find y.session_id t y_met))
  Linked-find Linked.same = refl
  Linked-find (Linked.back l) = sym (Linked-find l)
  Linked-find (Linked.through k l) = Linked-find k ∙ Linked-find l

  -- A session and the root that `find` answers for it.
  session_root :
      (x : Occurrence)
      → Memᴰ x occ
      → x.active ≡ true
      → Linked occ x.session_id (find final.0 x.session_id).0
  session_root x there on =
      let (s, seen, together) = all_added.1 x there on in
      let (r, n, m, a, b) = together in
      let (forest, sound, named) = all_added.0 in
      let (i, q, c, l) = sound x.session_id (Ascent-has final.0 a) in
      subst (Linked occ x.session_id) (sym (find-Kept final.0 forest c).0) l

-- The loop of `find` has ended when its rounds are used up: for the session of an active occurrence
-- it answers a session that is its own parent in what `sessionUnion` built.
pub session_union_root :
    (occ : List Occurrence) (x : Occurrence)
    → Memᴰ x occ
    → x.active ≡ true
    → parent (session_union occ) (find (session_union occ) x.session_id).0
      ≡ (find (session_union occ) x.session_id).0
unfolding session_union parent
session_union_root occ x there on =
    let (s, seen, together) = (all_added occ).1 x there on in
    let (r, n, m, a, b) = together in
    let (forest, sound, named) = (all_added occ).0 in
    rw
      (
        (find-Kept (add_occurrences ([], []) occ).0 forest a).0,
        Ascent-root (add_occurrences ([], []) occ).0 a,
      )
      refl

-- The components are right: on what `sessionUnion` builds, `find` answers the same root for the
-- sessions of two active occurrences exactly when a chain of values, each shared by two active
-- occurrences, connects the sessions, whichever paths were halved on the way.
pub session_union-Linked :
    (occ : List Occurrence) (x y : Occurrence)
    → Memᴰ x occ
    → Memᴰ y occ
    → x.active ≡ true
    → y.active ≡ true
    → Linked occ x.session_id y.session_id
      ↔ ((find (session_union occ) x.session_id).0 ≡ (find (session_union occ) y.session_id).0)
unfolding session_union
session_union-Linked occ x y x_there y_there x_on y_on = (
  (λ l. Linked-find occ l),
  λ h. Linked.through (session_root occ x x_there x_on) (
      subst (λ z. Linked occ z y.session_id) (sym h)
        (Linked.back (session_root occ y y_there y_on))),
)
