-- ===== src/Campaign/Majority/Winner.antt =====
-- `actorMajority` is what it promises, although it tallies neither the heaviest actor nor, where no ID
-- has two actors, anything but lineages.
use shard_lure.Common.{
  ℕ, ◌≡◌, refl, sym, subst, ◌∙◌, inl, inr, true, false, not, List, [], ◌∷◌, ◌++◌, Option, none,
  some, Bytes, eqb_refl, has_key, is_nil, All, map, leb, Bool-cases, arith,
}
use shard_lure.Campaign.Majority.{
  ActorVotes, all_votes, heaviest, best, keys_at, all_keys, sole, decide, majority_of,
  actor_majority,
}
use shard_lure.Campaign.Majority.Naive.{carried, is_leader, leaders, naive_majority}
use shard_lure.Campaign.Majority.Agreement.{Within, AllNamed, sole_same}
use shard_lure.Campaign.Majority.Tally.{Unrepeated, IsDistinct, keys_at-amount}
use shard_lure.Campaign.Majority.Members.{
  Within-map, has_key-keep, of_all, named_map, map_append, lins_first, all_in, member-append,
}
use shard_lure.Campaign.Majority.Ranking.{
  carried-score, IsHeaviest, heaviest_score, Has, heaviest-Has,
}
use shard_lure.Campaign.Majority.Counts.{
  cnt, cnt_keys, cnt-Unrepeated, best_leads, leads_best, small_leads,
}

-- The lineages of an actor are a set, and are those of its recorded IDs.
abbrev pub IsVoter : (Bytes → Bytes) → Option ActorVotes → Type 0
IsVoter rep none = Unit
IsVoter rep (some v) =
    Unrepeated v.lins × Within v.lins (map rep v.raws) × Within (map rep v.raws) v.lins

-- An ID that is carried has a lineage.
abbrev pub IsNamed : (Bytes → Bytes) → List (Option ActorVotes) → Type 0
IsNamed rep votes = (s : Bytes) → has_key (carried votes) s ≡ true → is_nil (rep s) ≡ false

no_members :
    (rep : Bytes → Bytes) (xs : List Bytes) → ((s : Bytes) → has_key xs s ≡ false) → xs ≡ []
no_members rep [] h = refl
no_members rep (x ∷ xs) h = ground (arith, h x, eqb_refl x)

module _ (rep : Bytes → Bytes) (votes : List (Option ActorVotes)) (h : ℕ) (heavy : ActorVotes) where
  module _ (a : All IsDistinct votes) (e : IsHeaviest votes (some (h, heavy)))
      (v : IsVoter rep (some heavy)) (n : IsNamed rep votes) where
    leader_carried : Within (leaders votes) (carried votes)
    leader_carried s k = ground (arith, k, has_key-keep (is_leader votes) (carried votes) s)

    heavy_carried : Within heavy.raws (carried votes)
    heavy_carried s k = ground (arith, k, e s, carried-score votes s)

    key_carried : Within (all_keys (cnt votes h heavy)) (carried votes)
    key_carried s k = ground (arith, k, e s, cnt_keys votes h heavy a s, carried-score votes s)

    best-carried : Within (keys_at (best (cnt votes h heavy)) (cnt votes h heavy)) (carried votes)
    best-carried s k = key_carried s (
        ground (
          arith,
          k,
          keys_at-amount (best (cnt votes h heavy)) (cnt votes h heavy) s
              (cnt-Unrepeated votes h heavy),
        ))

    lins_named : AllNamed heavy.lins
    lins_named =
        all_in (λ l. not (is_nil l)) heavy.lins
          (λ l k.
            of_all (λ t. not (is_nil t)) (map rep heavy.raws) l
              (named_map rep heavy.raws (λ s m. n s (heavy_carried s m))) (v.1 l k))

    small-Within :
        leb 2 (best (cnt votes h heavy)) ≡ false
        → Within (heavy.lins ++ map rep (all_keys (cnt votes h heavy))) (map rep (leaders votes))
    small-Within one x k = elim (Bool-cases (has_key heavy.lins x)) [
      | inl f ↦
          Within-map rep heavy.raws (leaders votes)
            (λ s m. ground (arith, m, heavy_carried s, small_leads votes h heavy a e one s)) x
            (v.1 x f)
      | inr f ↦
          Within-map rep (all_keys (cnt votes h heavy)) (leaders votes)
            (λ s m. ground (arith, m, key_carried s, small_leads votes h heavy a e one s)) x
            (ground
              (arith, k, f, member-append heavy.lins (map rep (all_keys (cnt votes h heavy))) x))
    ]

    Within-small :
        leb 2 (best (cnt votes h heavy)) ≡ false
        → Within (map rep (leaders votes)) (heavy.lins ++ map rep (all_keys (cnt votes h heavy)))
    Within-small one x k =
        let keys = all_keys (cnt votes h heavy) in
        let Here : List Bytes → Type 0 = λ t. has_key t x ≡ true in
        let joined = subst Here (map_append rep heavy.raws keys) (
          Within-map rep (leaders votes) (heavy.raws ++ keys)
            (λ s m. ground (
              arith,
              leader_carried s,
              m,
              carried-score votes s,
              e s,
              cnt_keys votes h heavy a s,
              member-append heavy.raws keys s,
            ))
            x k) in
        ground (
          arith,
          joined,
          member-append (map rep heavy.raws) (map rep keys) x,
          v.2 x,
          member-append heavy.lins (map rep keys) x,
        )

    decide-naive_majority : decide rep heavy (cnt votes h heavy) ≡ naive_majority rep votes
    unfolding decide naive_majority
    decide-naive_majority = elim (Bool-cases (leb 2 (best (cnt votes h heavy)))) [
      | inl two ↦
          let keys = keys_at (best (cnt votes h heavy)) (cnt votes h heavy) in
          rw two (
            sole_same (map rep keys) (map rep (leaders votes))
              (named_map rep keys (λ s k. n s (best-carried s k)))
              (named_map rep (leaders votes) (λ s k. n s (leader_carried s k)))
              (Within-map rep keys (leaders votes) (best_leads votes h heavy a e two))
              (Within-map rep (leaders votes) keys (leads_best votes h heavy a e two)))
      | inr one ↦
          let keys = map rep (all_keys (cnt votes h heavy)) in
          rw one (
            lins_first heavy.lins keys v.0 lins_named
            ∙ sole_same (heavy.lins ++ keys) (map rep (leaders votes))
                (all_in (λ l. not (is_nil l)) (heavy.lins ++ keys)
                  (λ l k.
                    of_all (λ t. not (is_nil t)) (map rep (leaders votes)) l
                      (named_map rep (leaders votes) (λ s m. n s (leader_carried s m)))
                      (small-Within one l k)))
                (named_map rep (leaders votes) (λ s k. n s (leader_carried s k))) (small-Within one)
                (Within-small one))
    ]

majority_of-naive_majority :
    (rep : Bytes → Bytes) (votes : List (Option ActorVotes)) (b : Option (ℕ × ActorVotes))
    → IsHeaviest votes b
    → Has (IsVoter rep) b
    → All IsDistinct votes
    → IsNamed rep votes
    → majority_of rep votes b ≡ naive_majority rep votes
unfolding naive_majority
majority_of-naive_majority rep votes none e v a n =
    let empty : leaders votes ≡ [] = no_members rep (leaders votes) (λ s.
      ground
        (arith, e s, carried-score votes s, has_key-keep (is_leader votes) (carried votes) s)) in
    let Nothing : List Bytes → Type 0 = λ t. [] ≡ sole [] (map rep t) in
    subst Nothing (sym empty) (unfold sole in refl)
majority_of-naive_majority rep votes (some (h, heavy)) e v a n =
    decide-naive_majority rep votes h heavy a e v n

-- The majority is what it promises, whatever the order of the actors, of their IDs and of the maps: of
-- the recorded IDs that no other is carried by more actors than, the one lineage that all of them
-- have, and nothing where they have several or no ID is carried; if each actor's recorded IDs are a
-- set, its lineages are the set of theirs, and a recorded ID that is carried has a lineage.
pub actor_majority-naive_majority :
    (rep : Bytes → Bytes) (used : List Bytes) (actors : List (Bytes × ActorVotes))
    → All IsDistinct (all_votes actors used)
    → All (IsVoter rep) (all_votes actors used)
    → IsNamed rep (all_votes actors used)
    → actor_majority rep used actors ≡ naive_majority rep (all_votes actors used)
unfolding actor_majority
actor_majority-naive_majority rep used actors a v n =
    let votes = all_votes actors used in
    majority_of-naive_majority rep votes (heaviest votes) (heaviest_score votes)
      (heaviest-Has (IsVoter rep) votes v) a n
