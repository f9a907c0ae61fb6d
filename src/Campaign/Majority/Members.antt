-- ===== src/Campaign/Majority/Members.antt =====
-- What is in a list that was mapped, filtered or joined, and the early answer on the lineages.
use shard_lure.Common.{
  ◌≡◌, refl, sym, subst, ap, inl, inr, Bool, true, false, ◌&&◌, ◌||◌, List, [], ◌∷◌, ◌++◌, Bytes,
  eqb, eqb_refl, eq_of_eqb, has_key, is_nil, any-append, all, map, length, leb, Bool-cases,
  if◌then◌else◌, arith,
}
use shard_lure.Campaign.Majority.{sole, last_of}
use shard_lure.Campaign.Majority.Naive.{keep}
use shard_lure.Campaign.Majority.Agreement.{Within, AllNamed}
use shard_lure.Campaign.Majority.Tally.{Unrepeated}
use shard_lure.Campaign.Majority.Ranking.{}

map_member :
    (rep : Bytes → Bytes) (ys : List Bytes) (y : Bytes)
    → has_key ys y ≡ true
    → has_key (map rep ys) (rep y) ≡ true
map_member rep [] y h = cc
map_member rep (z ∷ ys) y h = elim (Bool-cases (eqb y z)) [
  | inl e ↦
      let Here : Bytes → Type 0 = λ t. has_key (map rep (z ∷ ys)) (rep t) ≡ true in
      subst Here (sym (eq_of_eqb y z e)) (ground (arith, eqb_refl (rep z)))
  | inr e ↦ ground (arith, map_member rep ys y (ground (arith, h, e)))
]

pub Within-map :
    (rep : Bytes → Bytes) (xs ys : List Bytes) → Within xs ys → Within (map rep xs) (map rep ys)
Within-map rep [] ys h x k = ground (arith, k)
Within-map rep (y ∷ xs) ys h x k = elim (Bool-cases (eqb x (rep y))) [
  | inl e ↦
      let There : Bytes → Type 0 = λ t. has_key (map rep ys) t ≡ true in
      subst There (sym (eq_of_eqb x (rep y) e))
        (map_member rep ys y (h y (ground (arith, eqb_refl y))))
  | inr e ↦ Within-map rep xs ys (λ z m. h z (ground (arith, m))) x (ground (arith, k, e))
]

pub has_key-keep :
    (p : Bytes → Bool) (rs : List Bytes) (s : Bytes) → has_key (keep p rs) s ≡ (has_key rs s && p s)
unfolding keep
has_key-keep p [] s = refl
has_key-keep p (r ∷ rs) s = elim (Bool-cases (eqb s r)) [
  | inl e ↦
      let Here : Bytes → Type 0 =
        λ t. has_key (if p r then r ∷ keep p rs else keep p rs) t ≡ (has_key (r ∷ rs) t && p t) in
      subst Here (sym (eq_of_eqb s r e)) (ground (arith, eqb_refl r, has_key-keep p rs r))
  | inr e ↦ elim (Bool-cases (p r)) [
    | inl f ↦ rw f (ground (arith, e, has_key-keep p rs s))
    | inr f ↦ rw f (ground (arith, e, has_key-keep p rs s))
  ]
]

pub all_of : (p : Bytes → Bool) (xs : List Bytes) → ((s : Bytes) → p s ≡ true) → all p xs ≡ true
all_of p [] h = refl
all_of p (x ∷ xs) h = ground (arith, h x, all_of p xs h)

pub of_all :
    (p : Bytes → Bool) (xs : List Bytes) (s : Bytes)
    → all p xs ≡ true
    → has_key xs s ≡ true
    → p s ≡ true
of_all p [] s a h = cc
of_all p (x ∷ xs) s a h = elim (Bool-cases (eqb s x)) [
  | inl e ↦
      let Here : Bytes → Type 0 = λ t. p t ≡ true in
      subst Here (sym (eq_of_eqb s x e)) (ground (arith, a))
  | inr e ↦ of_all p xs s (ground (arith, a)) (ground (arith, h, e))
]

pub named_map :
    (rep : Bytes → Bytes) (xs : List Bytes)
    → ((s : Bytes) → has_key xs s ≡ true → is_nil (rep s) ≡ false)
    → AllNamed (map rep xs)
named_map rep [] h = refl
named_map rep (x ∷ xs) h =
    ground (arith, h x, eqb_refl x, named_map rep xs (λ s k. h s (ground (arith, k))))

pub map_append :
    (rep : Bytes → Bytes) (xs ys : List Bytes) → map rep (xs ++ ys) ≡ map rep xs ++ map rep ys
map_append rep [] ys = refl
map_append rep (x ∷ xs) ys = ap (λ t. rep x ∷ t) (map_append rep xs ys)

-- The early answer on the lineages of the heaviest is that of the loop over all of them.
pub lins_first :
    (lins ls : List Bytes)
    → Unrepeated lins
    → AllNamed lins
    → (if leb 2 (length lins) then [] else sole (last_of lins) ls) ≡ sole [] (lins ++ ls)
unfolding sole last_of
lins_first [] ls u a = refl
lins_first (l ∷ []) ls u a = ground (arith, a)
lins_first (l ∷ k ∷ lins) ls (x, u) a = ground (arith, a, x, eqb_refl k, eq_of_eqb k l)

pub all_in :
    (p : Bytes → Bool) (xs : List Bytes)
    → ((s : Bytes) → has_key xs s ≡ true → p s ≡ true)
    → all p xs ≡ true
all_in p [] h = refl
all_in p (x ∷ xs) h = ground (arith, h x, eqb_refl x, all_in p xs (λ s k. h s (ground (arith, k))))

pub member-append :
    (xs ys : List Bytes) (s : Bytes) → has_key (xs ++ ys) s ≡ (has_key xs s || has_key ys s)
member-append xs ys s = any-append (eqb s) xs ys
