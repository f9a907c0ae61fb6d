-- ===== src/Campaign/Majority/Counts.antt =====
-- The tally of the others, credited with the heaviest actor: its counts are the scores, and its best
-- IDs lead.
use shard_lure.Common.{
  ℕ, ◌≤◌, ◌≡◌, sym, subst, ◌⊎◌, inl, inr, true, false, List, [], Option, some, Bytes, has_key, All,
  ltb, leb, Bool-cases, if◌then◌else◌, arith,
}
use shard_lure.Campaign.Majority.{ActorVotes, others, tally, credit, best, keys_at, all_keys}
use shard_lure.Campaign.Majority.Naive.{score, carried, is_leader, leaders}
use shard_lure.Campaign.Majority.Agreement.{Within}
use shard_lure.Campaign.Majority.Tally.{
  amount, Unrepeated, IsDistinct, amount-tally, Unrepeated-tally, Positive-tally, keys-amount,
  keys-credit, amount-credit, keys_at-amount, amount-best, best_reached,
}
use shard_lure.Campaign.Majority.Members.{has_key-keep, all_of, of_all}
use shard_lure.Campaign.Majority.Ranking.{carried-score, IsHeaviest, All-others}

-- Where the tally of the others, credited with the heaviest, has an ID, it has its score.
module _ (votes : List (Option ActorVotes)) (h : ℕ) (heavy : ActorVotes) where
  abbrev pub cnt : List (Bytes × ℕ)
  cnt = credit heavy.raws (tally [] (others h votes))

  pub cnt-amount :
      All IsDistinct votes
      → IsHeaviest votes (some (h, heavy))
      → (s : Bytes) → amount cnt s ≡ (if has_key (all_keys cnt) s then score votes s else 0)
  unfolding amount
  cnt-amount a e s = ground (
    arith,
    e s,
    amount-credit heavy.raws (tally [] (others h votes)) s,
    keys-credit heavy.raws (tally [] (others h votes)),
    amount-tally [] (others h votes) s (All-others IsDistinct h votes a),
  )

  pub cnt_keys :
      All IsDistinct votes
      → (s : Bytes) → has_key (all_keys cnt) s ≡ ltb 0 (score (others h votes) s)
  unfolding amount
  cnt_keys a s = ground (
    arith,
    keys-credit heavy.raws (tally [] (others h votes)),
    amount-tally [] (others h votes) s (All-others IsDistinct h votes a),
    keys-amount (tally [] (others h votes)) s (Positive-tally [] (others h votes) tt),
  )

  pub cnt-Unrepeated : Unrepeated (all_keys cnt)
  unfolding all_keys
  cnt-Unrepeated =
      subst Unrepeated (sym (keys-credit heavy.raws (tally [] (others h votes))))
        (Unrepeated-tally [] (others h votes) tt)

  -- No score passes the best one, unless it is 1.
  score-best :
      All IsDistinct votes
      → IsHeaviest votes (some (h, heavy))
      → (s : Bytes) → score votes s ≤ best cnt ⊎ score votes s ≤ 1
  score-best a e s = elim (Bool-cases (has_key (all_keys cnt) s)) [
    | inl k ↦ inl (ground (arith, k, cnt-amount a e s, amount-best cnt s))
    | inr k ↦ inr (ground (arith, k, e s, cnt_keys a s))
  ]

  -- Where some ID has two actors, the IDs with the best count are the leaders.
  module _ (a : All IsDistinct votes) (e : IsHeaviest votes (some (h, heavy))) where
    pub best_leads : leb 2 (best cnt) ≡ true → Within (keys_at (best cnt) cnt) (leaders votes)
    best_leads two s k =
        let at = keys_at-amount (best cnt) cnt s cnt-Unrepeated in
        let mine = cnt-amount a e s in
        ground (
          arith,
          has_key-keep (is_leader votes) (carried votes) s,
          carried-score votes s,
          at,
          mine,
          k,
          two,
          all_of (λ t. leb (score votes t) (score votes s)) (carried votes)
              (λ t. ground (arith, at, mine, k, two, score-best a e t)),
        )

    pub leads_best : leb 2 (best cnt) ≡ true → Within (leaders votes) (keys_at (best cnt) cnt)
    leads_best two s k =
        let (t, reached) = best_reached cnt (ground (arith, two)) cnt-Unrepeated in
        let kept = has_key-keep (is_leader votes) (carried votes) s in
        let top : leb (score votes t) (score votes s) ≡ true =
          of_all (λ r. leb (score votes r) (score votes s)) (carried votes) t
            (ground (arith, k, kept))
            (ground (arith, two, reached, carried-score votes t, cnt-amount a e t)) in
        ground (
          arith,
          keys_at-amount (best cnt) cnt s cnt-Unrepeated,
          cnt-amount a e s,
          cnt-amount a e t,
          reached,
          top,
          two,
          cnt_keys a s,
          e s,
          score-best a e s,
        )

    -- Where none has, all that are carried lead.
    pub small_leads :
        leb 2 (best cnt) ≡ false
        → (s : Bytes) → has_key (leaders votes) s ≡ has_key (carried votes) s
    small_leads one s = elim (Bool-cases (has_key (carried votes) s)) [
      | inr out ↦ ground (arith, out, has_key-keep (is_leader votes) (carried votes) s)
      | inl inside ↦ ground (
        arith,
        inside,
        has_key-keep (is_leader votes) (carried votes) s,
        all_of (λ t. leb (score votes t) (score votes s)) (carried votes)
            (λ t. ground (arith, one, inside, carried-score votes s, score-best a e t)),
      )
    ]
