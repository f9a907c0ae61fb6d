-- ===== src/Campaign/Sessions/Forest.antt =====
-- The union-find as a forest: `find` answers the root, and the paths that it halves keep their roots.
use shard_lure.Common.{
  ℕ, zero, suc, ◌≤◌, ◌≡◌, refl, sym, ap, ◌∙◌, Bool, true, false, [], ◌∷◌, some, Bytes, eqb,
  eqb_refl, eq_of_eqb, length, is_some, if◌then◌else◌, Bool-cases, Map, lookup, assign,
  lookup-assign, lookup-assign_other, inl, inr, subst, arith,
}
use shard_lure.Campaign.Sessions.{value_of, parent, climb}
use shard_lure.Campaign.Sessions.Paths.{Ascent, Shortens, halve_within, no_circle, past_parent}

-- The keys that are no roots.
unfoldable pub inner : Map → ℕ
inner [] = 0
inner ((k, v) ∷ u) = let rest = inner u in if eqb v k then rest else suc rest

pub inner_bound : (u : Map) → inner u ≤ length u
unfolding inner
inner_bound [] = omega arith
inner_bound ((k, v) ∷ u) = ground (arith, inner_bound u)

head_value : (k v x p : Bytes) (u : Map) → lookup ((k, v) ∷ u) x ≡ some p → eqb k x ≡ true → v ≡ p
unfolding lookup
head_value k v x p u h same =
    ap value_of (subst (λ t. (if t then some v else lookup u x) ≡ some p) same h)

tail_value :
    (k v x p : Bytes) (u : Map)
    → lookup ((k, v) ∷ u) x ≡ some p
    → eqb k x ≡ false
    → lookup u x ≡ some p
unfolding lookup
tail_value k v x p u h other = subst (λ t. (if t then some v else lookup u x) ≡ some p) other h

-- An equation of keys carries a test over.
moved_test : (g p x k : Bytes) → eqb k x ≡ true → g ≡ p → eqb p x ≡ false → eqb g k ≡ false
moved_test g p x k same e d =
    subst (λ z. eqb g z ≡ false) (sym (eq_of_eqb k x same)) (subst (λ z. eqb z x ≡ false) (sym e) d)

inner-assign :
    (u : Map) (x p g : Bytes)
    → lookup u x ≡ some p
    → eqb p x ≡ false
    → eqb g x ≡ false
    → inner (assign u x g) ≡ inner u
unfolding inner lookup assign
inner-assign [] x p g h d e = ground (arith, h)
inner-assign ((k, v) ∷ u) x p g h d e = elim (Bool-cases (eqb k x)) [
  | inl same ↦
      let fresh = moved_test g g x k same refl e in
      let old = moved_test v p x k same (head_value k v x p u h same) d in
      rw (same, fresh, old) refl
  | inr other ↦ rw (other, inner-assign u x p g (tail_value k v x p u h other) d e) refl
]

pub inner-assign_root :
    (u : Map) (x g : Bytes)
    → lookup u x ≡ some x
    → eqb g x ≡ false
    → inner (assign u x g) ≡ suc (inner u)
unfolding inner lookup assign
inner-assign_root [] x g h e = ground (arith, h)
inner-assign_root ((k, v) ∷ u) x g h e = elim (Bool-cases (eqb k x)) [
  | inl same ↦
      let fresh = moved_test g g x k same refl e in
      let old : eqb v k ≡ true =
        rw (head_value k v x x u h same, eq_of_eqb k x same) (eqb_refl x) in
      rw (same, fresh, old) refl
  | inr other ↦ rw (other, inner-assign_root u x g (tail_value k v x x u h other) e) (ground arith)
]

abbrev pub has : Map → Bytes → Bool
has u x = is_some (lookup u x)

pub has-assign : (u : Map) (x g y : Bytes) → has u x ≡ true → has (assign u x g) y ≡ has u y
has-assign u x g y h = elim (Bool-cases (eqb x y)) [
  | inl same ↦
      subst (λ z. has (assign u x g) z ≡ has u z) (eq_of_eqb x y same)
        (rw (lookup-assign u x g) (sym h))
  | inr other ↦ rw (lookup-assign_other u x g y other) refl
]

-- What `find` may do to the map.
abbrev pub Kept : Map → Map → Type 0
Kept u v = Shortens u v × (inner v ≡ inner u) × ((y : Bytes) → has v y ≡ has u y)

pub Kept-trans : (u v w : Map) → Kept u v → Kept v w → Kept u w
Kept-trans u v w (a, b, c) (a', b', c') = (
  (λ x r n t.
      let (k, t', l) = a x r n t in
      let (k', t'', l') = a' x r k t' in (k', t'', omega (arith, l, l'))),
  b' ∙ b,
  λ y. c' y ∙ c y,
)

has_parent : (u : Map) {x r : Bytes} {n : ℕ} → Ascent u x n r → (g : Bytes) × (lookup u x ≡ some g)
has_parent u {x} (Ascent.root e) = (x, e)
has_parent u (Ascent.up {p = p} e d a) = (p, e)

climb_at_root : (u : Map) (fuel : ℕ) (x : Bytes) → lookup u x ≡ some x → climb u fuel x ≡ (x, u)
unfolding climb parent
climb_at_root u zero x h = refl
climb_at_root u (suc fuel) x h = rw (h, eqb_refl x) refl

climb_step :
    (u : Map) (fuel : ℕ) (x p g : Bytes)
    → lookup u x ≡ some p
    → eqb p x ≡ false
    → lookup u p ≡ some g
    → climb u (suc fuel) x ≡ climb (assign u x g) fuel g
unfolding climb parent
climb_step u fuel x p g h d k = rw (h, d, k) refl

pub climb-Kept :
    (fuel : ℕ) (u : Map) {x r : Bytes} {n : ℕ}
    → Ascent u x n r
    → n ≤ fuel
    → ((climb u fuel x).0 ≡ r) × Kept u (climb u fuel x).1
climb-Kept fuel u {x} (Ascent.root e) l =
    rw (climb_at_root u fuel x e) (refl, ((λ y r n t. (n, t, omega arith)), refl, λ y. refl))
climb-Kept zero u (Ascent.up e d a) l = absurd (omega (arith, l))
climb-Kept (suc fuel) u {x} {r} {n = suc n} (Ascent.up {p = p} h d a) l =
    let (g, k) = has_parent u a in
    let (m, b, small) = past_parent u g k a in
    let apart = no_circle u x p g h d a b small in
    let halved : Kept u (assign u x g) = (
      (λ y s i t. halve_within u x p g i h d k (omega arith) t),
      inner-assign u x p g h d apart,
      λ y. has-assign u x g y (rw h refl),
    ) in
    let (j, b', small') = halve_within u x p g m h d k (omega arith) b in
    let (same, kept) = climb-Kept fuel (assign u x g) b' (omega (arith, l, small, small')) in
    rw (climb_step u fuel x p g h d k)
      (same, Kept-trans u (assign u x g) (climb (assign u x g) fuel g).1 halved kept)
