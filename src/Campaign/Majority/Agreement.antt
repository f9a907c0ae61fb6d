-- ===== src/Campaign/Majority/Agreement.antt =====
-- The only lineage of a list depends on which lineages are in it, and on nothing else.
use shard_lure.Common.{
  ◌≡◌, refl, sym, subst, inl, inr, Bool, true, false, not, List, [], ◌∷◌, Bytes, eqb, eqb_refl,
  eq_of_eqb, has_key, is_nil, all, Bool-cases, if◌then◌else◌, arith,
}
use shard_lure.Campaign.Majority.{sole}

abbrev pub Within : List Bytes → List Bytes → Type 0
Within xs ys = (x : Bytes) → has_key xs x ≡ true → has_key ys x ≡ true

abbrev all_are : Bytes → List Bytes → Bool
all_are w ls = all (λ l. eqb l w) ls

-- What `sole` answers once it has a winner.
sole_from :
    (w : Bytes) (ls : List Bytes) → is_nil w ≡ false → sole w ls ≡ (if all_are w ls then w else [])
unfolding sole
sole_from w [] h = refl
sole_from w (l ∷ ls) h = ground (arith, h, sole_from w ls h)

member_is : (w x : Bytes) (ls : List Bytes) → all_are w ls ≡ true → has_key ls x ≡ true → x ≡ w
member_is w x [] a h = cc
member_is w x (l ∷ ls) a h = elim (Bool-cases (eqb x l)) [
  | inl e ↦ ground (arith, a, e, eq_of_eqb x l, eq_of_eqb l w)
  | inr e ↦ member_is w x ls (ground (arith, a)) (ground (arith, h, e))
]

Within-are :
    (w : Bytes) (xs ys : List Bytes) → all_are w ys ≡ true → Within xs ys → all_are w xs ≡ true
Within-are w [] ys a h = refl
Within-are w (x ∷ xs) ys a h =
    let here = member_is w x ys a (h x (ground (arith, eqb_refl x))) in
    let rest = Within-are w xs ys a (λ y k. h y (ground (arith, k))) in
    ground (arith, here, rest, eqb_refl w)

abbrev pub AllNamed : List Bytes → Type 0
AllNamed ls = all (λ l. not (is_nil l)) ls ≡ true

pub sole_same :
    (xs ys : List Bytes)
    → AllNamed xs
    → AllNamed ys
    → Within xs ys
    → Within ys xs
    → sole [] xs ≡ sole [] ys
unfolding sole
sole_same [] [] a b h k = refl
sole_same [] (y ∷ ys) a b h k = ground (arith, k y, eqb_refl y)
sole_same (x ∷ xs) [] a b h k = ground (arith, h x, eqb_refl x)
sole_same (x ∷ xs) (y ∷ ys) a b h k =
    let left = sole_from x xs (ground (arith, a)) in
    let right = sole_from y ys (ground (arith, b)) in
    elim (Bool-cases (all_are x xs)) [
      | inl e ↦
          let whole : all_are x (x ∷ xs) ≡ true = ground (arith, e, eqb_refl x) in
          let there = Within-are x (y ∷ ys) (x ∷ xs) whole k in
          let same_name : y ≡ x = ground (arith, there, eq_of_eqb y x) in
          subst (λ t. sole x xs ≡ sole t ys) (sym same_name)
            (ground (arith, left, e, there, sole_from x ys (ground (arith, a))))
      | inr e ↦ elim (Bool-cases (all_are y ys)) [
        | inl f ↦
            let whole : all_are y (y ∷ ys) ≡ true = ground (arith, f, eqb_refl y) in
            let there = Within-are y (x ∷ xs) (y ∷ ys) whole h in
            let same_name : x ≡ y = ground (arith, there, eq_of_eqb x y) in
            subst (λ t. sole t xs ≡ sole y ys) (sym same_name)
              (ground (arith, right, f, there, sole_from y xs (ground (arith, b))))
        | inr f ↦ ground (arith, left, right, e, f)
      ]
    ]
