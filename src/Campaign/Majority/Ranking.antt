-- ===== src/Campaign/Majority/Ranking.antt =====
-- The heaviest actor and the others, counted apart, make the scores of all.
use shard_lure.Common.{
  ℕ, zero, suc, ◌+◌, ◌≡◌, refl, inl, inr, true, false, List, [], ◌∷◌, Option, none, some, Bytes,
  eqb, has_key, is_nil, any-append, All, length, ltb, Bool-cases, arith,
}
use shard_lure.Campaign.Majority.{ActorVotes, heavier, heaviest, others}
use shard_lure.Campaign.Majority.Naive.{raws_of, one_if, score, carried}

-- The IDs that are carried are those with a score.
pub carried-score :
    (votes : List (Option ActorVotes)) (s : Bytes)
    → has_key (carried votes) s ≡ ltb 0 (score votes s)
unfolding carried score
carried-score [] s = ground arith
carried-score (v ∷ votes) s =
    ground (arith, carried-score votes s, any-append (eqb s) (raws_of v) (carried votes))

-- What an answer of `heaviest` is about.
abbrev pub IsHeaviest : List (Option ActorVotes) → Option (ℕ × ActorVotes) → Type 0
IsHeaviest votes none = (s : Bytes) → score votes s ≡ 0
IsHeaviest votes (some (h, v)) =
    (s : Bytes) → score votes s ≡ score (others h votes) s + one_if (has_key v.raws s)

nothing_carried : (raws : List Bytes) (s : Bytes) → is_nil raws ≡ true → has_key raws s ≡ false
nothing_carried [] s h = refl
nothing_carried (r ∷ raws) s h = cc

heavier_score :
    (v : Option ActorVotes) (votes : List (Option ActorVotes)) (b : Option (ℕ × ActorVotes))
    → IsHeaviest votes b
    → IsHeaviest (v ∷ votes) (heavier v b)
unfolding score others
heavier_score none votes none h = λ s. ground (arith, h s)
heavier_score none votes (some (j, w)) h = λ s. ground (arith, h s)
heavier_score (some v) votes none h = elim (Bool-cases (is_nil v.raws)) [
  | inl e ↦ rw e (λ s. ground (arith, h s, nothing_carried v.raws s e))
  | inr e ↦ rw e (λ s. ground arith)
]
heavier_score (some v) votes (some (j, w)) h =
    elim (Bool-cases (ltb (length v.raws) (length w.raws))) [
      | inl e ↦ rw e (λ s. ground (arith, h s))
      | inr e ↦ rw e (λ s. ground arith)
    ]

pub heaviest_score : (votes : List (Option ActorVotes)) → IsHeaviest votes (heaviest votes)
unfolding heaviest
heaviest_score [] = λ s. unfold score in refl
heaviest_score (v ∷ votes) = heavier_score v votes (heaviest votes) (heaviest_score votes)

module _ (P : Option ActorVotes → Type 0) where
  -- The heaviest is one of the votes.
  abbrev pub Has : Option (ℕ × ActorVotes) → Type 0
  Has none = Unit
  Has (some (h, v)) = P (some v)

  heavier-Has :
      (v : Option ActorVotes) (b : Option (ℕ × ActorVotes)) → P v → Has b → Has (heavier v b)
  heavier-Has none none p q = tt
  heavier-Has none (some (j, w)) p q = q
  heavier-Has (some v) none p q = elim (Bool-cases (is_nil v.raws)) [
    | inl e ↦ rw e tt
    | inr e ↦ rw e p
  ]
  heavier-Has (some v) (some (j, w)) p q = elim (Bool-cases (ltb (length v.raws) (length w.raws))) [
    | inl e ↦ rw e q
    | inr e ↦ rw e p
  ]

  pub heaviest-Has : (votes : List (Option ActorVotes)) → All P votes → Has (heaviest votes)
  unfolding heaviest
  heaviest-Has [] a = tt
  heaviest-Has (v ∷ votes) (p, a) = heavier-Has v (heaviest votes) p (heaviest-Has votes a)

  pub All-others : (h : ℕ) (votes : List (Option ActorVotes)) → All P votes → All P (others h votes)
  unfolding others
  All-others h [] a = tt
  All-others zero (v ∷ votes) (p, a) = a
  All-others (suc h) (v ∷ votes) (p, a) = (p, All-others h votes a)
