-- ===== src/Campaign/Sessions/Union.antt =====
-- What `union` does to the forest: one root becomes a child of the other.
use shard_lure.Common.{
  ℕ, suc, ◌≤◌, ◌≡◌, ◌⊎◌, refl, sym, ◌∙◌, true, false, some, Bytes, eqb, eq_of_eqb, length,
  Bool-cases, Map, lookup, assign, lookup-assign, lookup-assign_other, inl, inr, subst, arith,
}
use shard_lure.Campaign.Redirect.{target, same_target, eqb_flip}
use shard_lure.Campaign.Sessions.{find, before, join_roots, union}
use shard_lure.Campaign.Sessions.Paths.{Ascent, Ascent-end, off_root}
use shard_lure.Campaign.Sessions.Forest.{
  inner, inner_bound, inner-assign_root, has, has-assign, Kept, Kept-trans, climb-Kept,
}

-- Every key has a root, and its path is no longer than there are keys that are no roots.
abbrev pub IsForest : Map → Type 0
IsForest u = (x : Bytes) → has u x ≡ true → (n : ℕ) × (r : Bytes) × Ascent u x n r × (n ≤ inner u)

pub Kept-IsForest : (u v : Map) → Kept u v → IsForest u → IsForest v
Kept-IsForest u v (shorter, same, keys) f x h =
    let (n, r, a, l) = f x (sym (keys x) ∙ h) in
    let (k, a', l') = shorter x r n a in (k, r, a', omega (arith, l, l', same))

pub Ascent-has : (u : Map) {x r : Bytes} {n : ℕ} → Ascent u x n r → has u x ≡ true
Ascent-has u (Ascent.root e) = rw e refl
Ascent-has u (Ascent.up e d a) = rw e refl

pub Ascent-root : (u : Map) {x r : Bytes} {n : ℕ} → Ascent u x n r → lookup u r ≡ some r
Ascent-root u (Ascent.root e) = e
Ascent-root u (Ascent.up e d a) = Ascent-root u a

pub find-Kept :
    (u : Map) {x r : Bytes} {n : ℕ}
    → IsForest u
    → Ascent u x n r
    → ((find u x).0 ≡ r) × Kept u (find u x).1
unfolding find
find-Kept u {x} {r} f a =
    let (n, s, b, l) = f x (Ascent-has u a) in
    let (e, kept) = climb-Kept (length u) u b (omega (arith, l, inner_bound u)) in
    (e ∙ Ascent-end u b a, kept)

-- All paths go on, to the root that takes their root's place.
abbrev pub Moves : Map → Map → Bytes → Bytes → Type 0
Moves u v from to =
    IsForest v
    × ((y : Bytes) → has v y ≡ has u y)
    × ((x r : Bytes) (n : ℕ) → Ascent u x n r → (k : ℕ) × Ascent v x k (target from to r))

module _ (u : Map) (from to : Bytes) where
  grow :
      {x r : Bytes} {n : ℕ}
      → lookup u from ≡ some from
      → lookup u to ≡ some to
      → eqb from to ≡ false
      → Ascent u x n r
      → (k : ℕ) × Ascent (assign u from to) x k (target from to r) × (k ≤ suc n)
  grow {x} a b d (Ascent.root e) = elim (Bool-cases (eqb from x)) [
    | inl same ↦
        let met = eq_of_eqb from x same in
        rw same (
          1,
          Ascent.up {p = to}
              (subst (λ z. lookup (assign u from to) z ≡ some to) met (lookup-assign u from to))
              (subst (λ z. eqb to z ≡ false) met (eqb_flip from to d))
              (Ascent.root {x = to} (rw (lookup-assign_other u from to to d) b)),
          omega arith,
        )
    | inr other ↦
        rw other
          (0, Ascent.root {x = x} (rw (lookup-assign_other u from to x other) e), omega arith)
  ]
  grow {x} a b d (Ascent.up {p = p} e f t) =
      let (k, t', l) = grow a b d t in
      let off = eqb_flip x from (off_root u x from p a e f) in
      (suc k, Ascent.up {p = p} (rw (lookup-assign_other u from to x off) e) f t', omega (arith, l))

  assign-Moves :
      IsForest u
      → lookup u from ≡ some from
      → lookup u to ≡ some to
      → eqb from to ≡ false
      → Moves u (assign u from to) from to
  assign-Moves f a b d =
      let keys : (y : Bytes) → has (assign u from to) y ≡ has u y =
        λ y. has-assign u from to y (rw a refl) in
      let deeper = inner-assign_root u from to a (eqb_flip from to d) in
      (
        (λ x h.
            let (n, r, t, l) = f x (sym (keys x) ∙ h) in
            let (k, t', l') = grow a b d t in
            (k, target from to r, t', omega (arith, l, l', deeper))),
        keys,
        λ x r n t. let (k, t', l') = grow a b d t in (k, t'),
      )

Moves-after : (u v w : Map) (from to : Bytes) → Kept u v → Moves v w from to → Moves u w from to
Moves-after u v w from to (shorter, same, keys) (f, keys', on) =
    (f, (λ y. keys' y ∙ keys y), λ x r n t. let (k, t', l) = shorter x r n t in on x r k t')

Kept-Moves :
    (u v : Map) (from to : Bytes) → IsForest u → Kept u v → eqb from to ≡ true → Moves u v from to
Kept-Moves u v from to f (shorter, same, keys) h = (
  Kept-IsForest u v (shorter, same, keys) f,
  keys,
  λ x r n t.
      let (k, t', l) = shorter x r n t in (k, subst (Ascent v x k) (same_target from to r h) t'),
)

-- The two roots, in one order or the other.
abbrev pub IsPair : Bytes → Bytes → Bytes → Bytes → Type 0
IsPair ra rb from to = ((from ≡ ra) × (to ≡ rb)) ⊎ ((from ≡ rb) × (to ≡ ra))

join_roots-Moves :
    (u v : Map) (ra rb : Bytes)
    → IsForest u
    → Kept u v
    → lookup v ra ≡ some ra
    → lookup v rb ≡ some rb
    → (from : Bytes) × (to : Bytes) × IsPair ra rb from to × Moves u (join_roots v ra rb) from to
unfolding join_roots
join_roots-Moves u v ra rb f kept a b = elim (Bool-cases (eqb ra rb)) [
  | inl same ↦ rw same (ra, rb, inl (refl, refl), Kept-Moves u v ra rb f kept same)
  | inr apart ↦ elim (Bool-cases (before ra rb)) [
    | inl lower ↦
        rw (apart, lower)
          (
            rb,
            ra,
            inr (refl, refl),
            Moves-after u v (assign v rb ra) rb ra kept
                (assign-Moves v rb ra (Kept-IsForest u v kept f) b a (eqb_flip ra rb apart)),
          )
    | inr higher ↦
        rw (apart, higher)
          (
            ra,
            rb,
            inl (refl, refl),
            Moves-after u v (assign v ra rb) ra rb kept
                (assign-Moves v ra rb (Kept-IsForest u v kept f) a b apart),
          )
  ]
]

pub union-Moves :
    (u : Map) {a b ra rb : Bytes} {n m : ℕ}
    → IsForest u
    → Ascent u a n ra
    → Ascent u b m rb
    → (from : Bytes) × (to : Bytes) × IsPair ra rb from to × Moves u (union u a b) from to
unfolding union
union-Moves u {a} {b} {ra} {rb} {n} {m} f t s =
    let u' = (find u a).1 in
    let u'' = (find u' b).1 in
    let (ea, kept) = find-Kept u f t in
    let (m', s', l) = kept.0 b rb m s in
    let (eb, kept') = find-Kept u' (Kept-IsForest u u' kept f) s' in
    let both = Kept-trans u u' u'' kept kept' in
    let (k, t'', l') = both.0 a ra n t in
    let (k', s'', l'') = both.0 b rb m s in
    rw (ea, eb) (join_roots-Moves u u'' ra rb f both (Ascent-root u'' t'') (Ascent-root u'' s''))
