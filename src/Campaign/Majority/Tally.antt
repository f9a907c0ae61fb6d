-- ===== src/Campaign/Majority/Tally.antt =====
-- The tally of `actorMajority` counts the actors of every ID that it has.
use shard_lure.Common.{
  ℕ, ◌+◌, ◌≤◌, ◌<◌, ◌≡◌, refl, subst, inl, inr, true, false, ◌&&◌, ◌||◌, List, [], ◌∷◌, Option,
  none, some, Bytes, eqb, eqb_refl, eq_of_eqb, has_key, All, ltb, leb, ◌==◌, Bool-cases,
  if◌then◌else◌, arith,
}
use shard_lure.Campaign.Majority.{
  ActorVotes, bump, bump_all, tally, credit, best, keys_at, all_keys,
}
use shard_lure.Campaign.Majority.Naive.{raws_of, one_if, score}

eqb_comm : (s t : Bytes) → eqb s t ≡ eqb t s
eqb_comm s t = ground (arith, eq_of_eqb s t, eq_of_eqb t s, eqb_refl s)

-- `cnt[r]`
unfoldable pub amount : List (Bytes × ℕ) → Bytes → ℕ
amount [] r = 0
amount ((k, n) ∷ cnt) r = if eqb k r then n else amount cnt r

abbrev pub Unrepeated : List Bytes → Type 0
Unrepeated [] = Unit
Unrepeated (k ∷ keys) = (has_key keys k ≡ false) × Unrepeated keys

abbrev pub Positive : List (Bytes × ℕ) → Type 0
Positive = All (λ e. 0 < e.1)

amount-bump :
    (cnt : List (Bytes × ℕ)) (r s : Bytes) → amount (bump cnt r) s ≡ amount cnt s + one_if (eqb r s)
unfolding amount bump
amount-bump [] r s = ground arith
amount-bump ((k, n) ∷ cnt) r s =
    ground (arith, amount-bump cnt r s, eq_of_eqb k r, eq_of_eqb k s, eq_of_eqb r s, eqb_refl s)

keys-bump :
    (cnt : List (Bytes × ℕ)) (r s : Bytes)
    → has_key (all_keys (bump cnt r)) s ≡ (has_key (all_keys cnt) s || eqb s r)
unfolding bump all_keys
keys-bump [] r s = ground arith
keys-bump ((k, n) ∷ cnt) r s = ground (arith, keys-bump cnt r s, eq_of_eqb k r)

Unrepeated-bump :
    (cnt : List (Bytes × ℕ)) (r : Bytes)
    → Unrepeated (all_keys cnt)
    → Unrepeated (all_keys (bump cnt r))
unfolding bump all_keys
Unrepeated-bump [] r u = (refl, tt)
Unrepeated-bump ((k, n) ∷ cnt) r (x, u) = elim (Bool-cases (eqb k r)) [
  | inl e ↦ rw e (x, u)
  | inr e ↦
      let rest = Unrepeated-bump cnt r u in rw e (ground (arith, x, e, keys-bump cnt r k), rest)
]

Positive-bump : (cnt : List (Bytes × ℕ)) (r : Bytes) → Positive cnt → Positive (bump cnt r)
unfolding bump
Positive-bump [] r p = (ground arith, tt)
Positive-bump ((k, n) ∷ cnt) r (x, p) = elim (Bool-cases (eqb k r)) [
  | inl e ↦ rw e (ground arith, p)
  | inr e ↦ let rest = Positive-bump cnt r p in rw e (x, rest)
]

amount-bump_all :
    (cnt : List (Bytes × ℕ)) (raws : List Bytes) (s : Bytes)
    → Unrepeated raws
    → amount (bump_all cnt raws) s ≡ amount cnt s + one_if (has_key raws s)
unfolding bump_all
amount-bump_all cnt [] s u = ground arith
amount-bump_all cnt (r ∷ raws) s (x, u) =
    let rest = amount-bump_all (bump cnt r) raws s u in
    elim (Bool-cases (eqb r s)) [
      | inl e ↦
          let Holds : Bytes → Type 0 = λ t. has_key raws t ≡ false in
          ground
            (arith, rest, amount-bump cnt r s, eqb_comm r s, e, subst Holds (eq_of_eqb r s e) x)
      | inr e ↦ ground (arith, rest, amount-bump cnt r s, eqb_comm r s, e)
    ]

Unrepeated-bump_all :
    (cnt : List (Bytes × ℕ)) (raws : List Bytes)
    → Unrepeated (all_keys cnt)
    → Unrepeated (all_keys (bump_all cnt raws))
unfolding bump_all
Unrepeated-bump_all cnt [] u = u
Unrepeated-bump_all cnt (r ∷ raws) u =
    Unrepeated-bump_all (bump cnt r) raws (Unrepeated-bump cnt r u)

Positive-bump_all :
    (cnt : List (Bytes × ℕ)) (raws : List Bytes) → Positive cnt → Positive (bump_all cnt raws)
unfolding bump_all
Positive-bump_all cnt [] p = p
Positive-bump_all cnt (r ∷ raws) p = Positive-bump_all (bump cnt r) raws (Positive-bump cnt r p)

-- The recorded IDs of an actor are a set.
abbrev pub IsDistinct : Option ActorVotes → Type 0
IsDistinct v = Unrepeated (raws_of v)

pub amount-tally :
    (cnt : List (Bytes × ℕ)) (votes : List (Option ActorVotes)) (s : Bytes)
    → All IsDistinct votes
    → amount (tally cnt votes) s ≡ amount cnt s + score votes s
unfolding tally score
amount-tally cnt [] s u = ground arith
amount-tally cnt (none ∷ votes) s (x, u) = ground (arith, amount-tally cnt votes s u)
amount-tally cnt (some v ∷ votes) s (x, u) =
    ground (arith, amount-tally (bump_all cnt v.raws) votes s u, amount-bump_all cnt v.raws s x)

pub Unrepeated-tally :
    (cnt : List (Bytes × ℕ)) (votes : List (Option ActorVotes))
    → Unrepeated (all_keys cnt)
    → Unrepeated (all_keys (tally cnt votes))
unfolding tally
Unrepeated-tally cnt [] u = u
Unrepeated-tally cnt (none ∷ votes) u = Unrepeated-tally cnt votes u
Unrepeated-tally cnt (some v ∷ votes) u =
    Unrepeated-tally (bump_all cnt v.raws) votes (Unrepeated-bump_all cnt v.raws u)

pub Positive-tally :
    (cnt : List (Bytes × ℕ)) (votes : List (Option ActorVotes))
    → Positive cnt
    → Positive (tally cnt votes)
unfolding tally
Positive-tally cnt [] p = p
Positive-tally cnt (none ∷ votes) p = Positive-tally cnt votes p
Positive-tally cnt (some v ∷ votes) p =
    Positive-tally (bump_all cnt v.raws) votes (Positive-bump_all cnt v.raws p)

-- The IDs of a tally are those with an amount.
pub keys-amount :
    (cnt : List (Bytes × ℕ)) (s : Bytes)
    → Positive cnt
    → has_key (all_keys cnt) s ≡ ltb 0 (amount cnt s)
unfolding amount all_keys
keys-amount [] s p = ground arith
keys-amount ((k, n) ∷ cnt) s (x, p) = elim (Bool-cases (eqb k s)) [
  | inl e ↦ ground (arith, x, e, eqb_comm k s)
  | inr e ↦ ground (arith, keys-amount cnt s p, e, eqb_comm k s)
]

pub keys-credit :
    (raws : List Bytes) (cnt : List (Bytes × ℕ)) → all_keys (credit raws cnt) ≡ all_keys cnt
unfolding credit all_keys
keys-credit raws [] = refl
keys-credit raws ((k, n) ∷ cnt) = ground (arith, keys-credit raws cnt)

pub amount-credit :
    (raws : List Bytes) (cnt : List (Bytes × ℕ)) (s : Bytes)
    → amount (credit raws cnt) s
      ≡ (if has_key (all_keys cnt) s then amount cnt s + one_if (has_key raws s) else 0)
unfolding credit all_keys amount
amount-credit raws [] s = refl
amount-credit raws ((k, n) ∷ cnt) s =
    ground (arith, amount-credit raws cnt s, eqb_comm k s, eq_of_eqb k s)

absent_at :
    (k s : Bytes) (cnt : List (Bytes × ℕ))
    → has_key (all_keys cnt) k ≡ false
    → eqb k s ≡ true
    → has_key (all_keys cnt) s ≡ false
absent_at k s cnt x e =
    let Holds : Bytes → Type 0 = λ t. has_key (all_keys cnt) t ≡ false in
    subst Holds (eq_of_eqb k s e) x

pub keys_at-amount :
    (n : ℕ) (cnt : List (Bytes × ℕ)) (s : Bytes)
    → Unrepeated (all_keys cnt)
    → has_key (keys_at n cnt) s ≡ (has_key (all_keys cnt) s && amount cnt s == n)
unfolding keys_at all_keys amount
keys_at-amount n [] s u = refl
keys_at-amount n ((k, c) ∷ cnt) s (x, u) =
    let rest = keys_at-amount n cnt s u in
    elim (Bool-cases (c == n)) [
      | inl e ↦ ground (arith, rest, eqb_comm k s, e, absent_at k s cnt x)
      | inr e ↦ ground (arith, rest, eqb_comm k s, e, absent_at k s cnt x)
    ]

pub amount-best : (cnt : List (Bytes × ℕ)) (s : Bytes) → amount cnt s ≤ best cnt
unfolding amount best
amount-best [] s = ground arith
amount-best ((k, n) ∷ cnt) s = ground (arith, amount-best cnt s)

present : (cnt : List (Bytes × ℕ)) (s : Bytes) → 0 < amount cnt s → has_key (all_keys cnt) s ≡ true
unfolding amount all_keys
present [] s h = ground (arith, h)
present ((k, n) ∷ cnt) s h = elim (Bool-cases (eqb k s)) [
  | inl e ↦ ground (arith, e, eqb_comm k s)
  | inr e ↦ ground (arith, e, present cnt s (ground (arith, h, e)))
]

-- The best amount is that of some ID.
pub best_reached :
    (cnt : List (Bytes × ℕ))
    → 0 < best cnt
    → Unrepeated (all_keys cnt)
    → (s : Bytes) × (amount cnt s ≡ best cnt)
unfolding amount best all_keys
best_reached [] h u = absurd (ground (arith, h))
best_reached ((k, n) ∷ cnt) h (x, u) = elim (Bool-cases (leb (best cnt) n)) [
  | inl e ↦ (k, ground (arith, e, eqb_refl k))
  | inr e ↦
      let (s, a) = best_reached cnt (ground (arith, e)) u in
      let there = present cnt s (ground (arith, a, e)) in
      (
        s,
        elim (Bool-cases (eqb k s)) [
          | inl f ↦ ground (arith, there, absent_at k s cnt x f)
          | inr f ↦ ground (arith, a, e, f)
        ],
      )
]
