-- ===== src/Campaign/Aliases/Chains.antt =====
-- The chains of aliases that `Resolve` walks: they end, and within its bound.
use shard_lure.Common.{
  lookup, assign, lookup-assign, lookup-assign_other, length-assign, ℕ, zero, suc, ◌+◌, ◌≤◌, ◌≡◌,
  refl, false, none, some, Bytes, eqb, eq_of_eqb, length, if◌then◌else◌, Bool-cases, inl, inr,
  subst, arith,
}
use shard_lure.Campaign.Redirect.{target, same_target, eqb_flip}
use shard_lure.Campaign.Aliases.{Aliases, follow, resolve, link}

-- `n` hops lead from an ID to one that has no alias.
pub data Chain (m : Aliases) : Bytes → ℕ → Bytes → Type 0 where
  stop : {id : Bytes} → lookup m id ≡ none → Chain m id 0 id
  hop :
      {id next r : Bytes} {n : ℕ}
      → lookup m id ≡ some next
      → eqb next id ≡ false
      → Chain m next n r
      → Chain m id (suc n) r

-- Every chain ends, after at most as many hops as there are aliases.
abbrev pub IsShallow : Aliases → Type 0
IsShallow m = (id : Bytes) → (n : ℕ) × (r : Bytes) × Chain m id n r × (n ≤ length m)

follow-Chain :
    (m : Aliases) {id r : Bytes} {n : ℕ} (fuel : ℕ)
    → Chain m id n r
    → n ≤ fuel
    → follow m fuel id ≡ r
unfolding follow
follow-Chain m zero (Chain.stop e) h = refl
follow-Chain m (suc fuel) (Chain.stop e) h = rw (follow, e) refl
follow-Chain m zero (Chain.hop e d c) h = absurd (omega (arith, h))
follow-Chain m (suc fuel) (Chain.hop e d c) h =
    rw (follow, e, d) (follow-Chain m fuel c (omega (arith, h)))

pub resolve-Chain :
    (m : Aliases) {id r : Bytes} {n : ℕ} → Chain m id n r → n ≤ length m → resolve m id ≡ r
unfolding resolve
resolve-Chain m c h = follow-Chain m (length m + 1) c (omega (arith, h))

Chain-root : (m : Aliases) {id r : Bytes} {n : ℕ} → Chain m id n r → lookup m r ≡ none
Chain-root m (Chain.stop e) = e
Chain-root m (Chain.hop e d c) = Chain-root m c

not_root :
    (m : Aliases) (from id next : Bytes)
    → lookup m from ≡ none
    → lookup m id ≡ some next
    → eqb from id ≡ false
not_root m from id next h k = elim (Bool-cases (eqb from id)) [
  | inl same ↦ ground (arith, k, subst (λ x. lookup m x ≡ none) (eq_of_eqb from id same) h)
  | inr other ↦ other
]

-- What a new alias of a root does to the chains.
module _ (m : Aliases) (from to : Bytes) where
  grow :
      {id r : Bytes} {n : ℕ}
      → lookup m from ≡ none
      → lookup m to ≡ none
      → eqb from to ≡ false
      → Chain m id n r
      → (k : ℕ) × Chain (assign m from to) id k (target from to r) × (k ≤ suc n)
  grow {id} a b d (Chain.stop e) = elim (Bool-cases (eqb from id)) [
    | inl same ↦ rw same (
      1,
      Chain.hop {next = to}
          (subst (λ x. lookup (assign m from to) x ≡ some to) (eq_of_eqb from id same)
            (lookup-assign m from to))
          (subst (λ x. eqb to x ≡ false) (eq_of_eqb from id same) (eqb_flip from to d))
          (Chain.stop (rw (lookup-assign_other m from to to d) b)),
      omega arith,
    )
    | inr other ↦
        rw other (0, Chain.stop (rw (lookup-assign_other m from to id other) e), omega arith)
  ]
  grow {id} a b d (Chain.hop {next = next} e f c) =
      let (k, c', h) = grow a b d c in
      (
        suc k,
        Chain.hop {next = next}
            (rw (lookup-assign_other m from to id (not_root m from id next a e)) e) f c',
        omega (arith, h),
      )

pub resolve_root : (m : Aliases) (id : Bytes) → IsShallow m → lookup m (resolve m id) ≡ none
resolve_root m id s = let (n, r, c, h) = s id in rw (resolve-Chain m c h) (Chain-root m c)

-- `link` between two roots: the chains stay short, and the IDs of one root move to the other.
pub resolve-link :
    (m : Aliases) (from to : Bytes)
    → IsShallow m
    → lookup m from ≡ none
    → lookup m to ≡ none
    → IsShallow (link m from to)
      × ((id : Bytes)
          → resolve (link m from to) id ≡ (if eqb from (resolve m id) then to else resolve m id))
unfolding link
resolve-link m from to s a b = elim (Bool-cases (eqb from to)) [
  | inl same ↦ rw same (s, λ id. same_target from to (resolve m id) same)
  | inr other ↦
      let deeper = length-assign m from to a in
      rw other (
        (λ id.
            let (n, r, c, h) = s id in
            let (k, c', h') = grow m from to a b other c in
            (k, target from to r, c', omega (arith, h, h', deeper))),
        λ id.
            let (n, r, c, h) = s id in
            let (k, c', h') = grow m from to a b other c in
            rw (resolve-Chain m c h)
              (resolve-Chain (assign m from to) c' (omega (arith, h, h', deeper))),
      )
]
