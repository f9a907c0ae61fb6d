-- ===== src/Campaign/Sessions/Paths.antt =====
-- The paths to the roots, and what halving them keeps.
use shard_lure.Common.{
  ℕ, zero, suc, ◌≤◌, ◌≡◌, false≢true, refl, sym, ap, ◌∙◌, false, some, Bytes, eqb, eqb_refl,
  eq_of_eqb, Bool-cases, Map, lookup, assign, lookup-assign, lookup-assign_other, inl, inr, subst,
  arith,
}
use shard_lure.Campaign.Sessions.{value_of}

-- `n` steps lead from `x` to its root.
pub data Ascent (u : Map) : Bytes → ℕ → Bytes → Type 0 where
  root : {x : Bytes} → lookup u x ≡ some x → Ascent u x 0 x
  up :
      {x p r : Bytes} {n : ℕ}
      → lookup u x ≡ some p
      → eqb p x ≡ false
      → Ascent u p n r
      → Ascent u x (suc n) r

-- Every ascent of `u` is one of `v`, and no longer.
abbrev pub Shortens : Map → Map → Type 0
Shortens u v = (x r : Bytes) (n : ℕ) → Ascent u x n r → (k : ℕ) × Ascent v x k r × (k ≤ n)

pub same_value : (u : Map) (x p q : Bytes) → lookup u x ≡ some p → lookup u x ≡ some q → p ≡ q
same_value u x p q h k = ap value_of (sym h ∙ k)

pub not_root :
    (u : Map) (x p : Bytes) → lookup u x ≡ some x → lookup u x ≡ some p → eqb p x ≡ false → ⊥
not_root u x p h k d =
    false≢true (sym d ∙ (ap (λ y. eqb y x) (same_value u x p x k h) ∙ eqb_refl x))

pub off_root :
    (u : Map) (x y p : Bytes)
    → lookup u y ≡ some y
    → lookup u x ≡ some p
    → eqb p x ≡ false
    → eqb x y ≡ false
off_root u x y p e h d = elim (Bool-cases (eqb x y)) [
  | inl same ↦
      absurd (not_root u x p (subst (λ z. lookup u z ≡ some z) (sym (eq_of_eqb x y same)) e) h d)
  | inr other ↦ other
]

-- A key has one ascent.
pub Ascent-length : (u : Map) {x r s : Bytes} {n m : ℕ} → Ascent u x n r → Ascent u x m s → n ≡ m
Ascent-length u (Ascent.root e) (Ascent.root f) = refl
Ascent-length u {x} (Ascent.root e) (Ascent.up {p = p} f d b) = absurd (not_root u x p e f d)
Ascent-length u {x} (Ascent.up {p = p} e d a) (Ascent.root f) = absurd (not_root u x p f e d)
Ascent-length u {x} {s = s} {m = suc m} (Ascent.up {p = p} e d a) (Ascent.up {p = q} f g b) =
    ap suc (Ascent-length u a (subst (λ y. Ascent u y m s) (same_value u x q p f e) b))

pub Ascent-end : (u : Map) {x r s : Bytes} {n m : ℕ} → Ascent u x n r → Ascent u x m s → r ≡ s
Ascent-end u (Ascent.root e) (Ascent.root f) = refl
Ascent-end u {x} (Ascent.root e) (Ascent.up {p = p} f d b) = absurd (not_root u x p e f d)
Ascent-end u {x} (Ascent.up {p = p} e d a) (Ascent.root f) = absurd (not_root u x p f e d)
Ascent-end u {x} {s = s} {m = suc m} (Ascent.up {p = p} e d a) (Ascent.up {p = q} f g b) =
    Ascent-end u a (subst (λ y. Ascent u y m s) (same_value u x q p f e) b)

-- What follows the parent `p` of a key, from its own parent `g` on.
pub past_parent :
    (u : Map) {p r : Bytes} {n : ℕ} (g : Bytes)
    → lookup u p ≡ some g
    → Ascent u p n r
    → (k : ℕ) × Ascent u g k r × (k ≤ n)
past_parent u {p} g h (Ascent.root e) =
    (0, subst (λ y. Ascent u y 0 p) (same_value u p p g e h) (Ascent.root e), omega arith)
past_parent u {p} {r} {n = suc n} g h (Ascent.up {p = q} e d a) =
    (n, subst (λ y. Ascent u y n r) (same_value u p q g e h) a, omega arith)

module _ (u : Map) (x p g : Bytes) where
  pub no_circle :
      {r : Bytes} {n m : ℕ}
      → lookup u x ≡ some p
      → eqb p x ≡ false
      → Ascent u p n r
      → Ascent u g m r
      → m ≤ n
      → eqb g x ≡ false
  no_circle {r} {m = m} h d a b l = elim (Bool-cases (eqb g x)) [
    | inl same ↦
        let longer =
          Ascent-length u (Ascent.up {p = p} h d a)
            (subst (λ z. Ascent u z m r) (eq_of_eqb g x same) b) in
        absurd (omega (arith, longer, l))
    | inr other ↦ other
  ]

  -- `u[x] = u[u[x]]`
  pub halve_within :
      (bound : ℕ) {y r : Bytes} {n : ℕ}
      → lookup u x ≡ some p
      → eqb p x ≡ false
      → lookup u p ≡ some g
      → n ≤ bound
      → Ascent u y n r
      → (k : ℕ) × Ascent (assign u x g) y k r × (k ≤ n)
  halve_within bound {y} h d k l (Ascent.root e) = (
    0,
    Ascent.root {x = y} (rw (lookup-assign_other u x g y (off_root u x y p e h d)) e),
    omega arith,
  )
  halve_within zero h d k l (Ascent.up {p = q} e f a) = absurd (omega (arith, l))
  halve_within (suc bound) {y} {r} {n = suc n} h d k l (Ascent.up {p = q} e f a) =
      elim (Bool-cases (eqb x y)) [
        | inl same ↦
            let met = eq_of_eqb x y same in
            let from_p : Ascent u p n r =
              subst (λ z. Ascent u z n r)
                (same_value u x q p (subst (λ z. lookup u z ≡ some q) (sym met) e) h) a in
            let (m, from_g, m_small) = past_parent u g k from_p in
            let (m', from_g', l') = halve_within bound h d k (omega (arith, l, m_small)) from_g in
            subst (λ z. (j : ℕ) × Ascent (assign u x g) z j r × (j ≤ suc n)) met
              (
                suc m',
                Ascent.up {p = g} (lookup-assign u x g) (no_circle h d from_p from_g m_small)
                    from_g',
                omega (arith, l', m_small),
              )
        | inr other ↦
            let (m, a', l') = halve_within bound h d k (omega (arith, l)) a in
            (
              suc m,
              Ascent.up {p = q} (rw (lookup-assign_other u x g y other) e) f a',
              omega (arith, l'),
            )
      ]
