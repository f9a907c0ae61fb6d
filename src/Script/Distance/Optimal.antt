-- ===== src/Script/Distance/Optimal.antt =====
-- The rolling rows against the edits they count.
use shard_lure.Common.{
  ℕ, zero, suc, ◌+◌, ◌≤◌, ◌≡◌, ◌⊎◌, refl, sym, inl, inr, min, Bool, List, [], Bytes, eqb, eqb_refl,
  eq_of_eqb, get_or, if◌then◌else◌, Bool-cases, subst, arith,
}

-- The alignments of the first `i` tokens of `a` with the first `j` of `b`, and how many edits they are.
-- Two neighbouring tokens may be swapped once, and are not edited again.
pub data Edits (a b : List Bytes) : ℕ → ℕ → ℕ → Type 0 where
  done : Edits a b 0 0 0
  drop : {i j n : ℕ} → Edits a b i j n → Edits a b (suc i) j (suc n)
  add : {i j n : ℕ} → Edits a b i j n → Edits a b i (suc j) (suc n)
  keep : {i j n : ℕ} → get_or a i [] ≡ get_or b j [] → Edits a b i j n → Edits a b (suc i) (suc j) n
  change : {i j n : ℕ} → Edits a b i j n → Edits a b (suc i) (suc j) (suc n)
  swap :
      {i j n : ℕ}
      → get_or a (suc i) [] ≡ get_or b j []
      → get_or a i [] ≡ get_or b (suc j) []
      → Edits a b i j n
      → Edits a b (suc (suc i)) (suc (suc j)) (suc n)

-- Some alignment takes `d` edits, and none takes fewer.
abbrev pub IsLeast : List Bytes → List Bytes → ℕ → ℕ → ℕ → Type 0
IsLeast a b i j d = Edits a b i j d × ((n : ℕ) → Edits a b i j n → d ≤ n)

min3_cases : (p q r : ℕ) → (min (min p q) r ≡ p) ⊎ ((min (min p q) r ≡ q) ⊎ (min (min p q) r ≡ r))
min3_cases p q r = ground arith

min_cases : (p q : ℕ) → (min p q ≡ p) ⊎ (min p q ≡ q)
min_cases p q = ground arith

min_left : (p q n : ℕ) → p ≤ n → min p q ≤ n
min_left p q n h = ground (arith, h)

min_right : (p q n : ℕ) → q ≤ n → min p q ≤ n
min_right p q n h = ground (arith, h)

abbrev pub cost_of : Bool → ℕ
cost_of same = if same then 0 else 1

module _ (a b : List Bytes) where
  count : {i j m n : ℕ} → m ≡ n → Edits a b i j m → Edits a b i j n
  count {i} {j} e d = subst (λ k. Edits a b i j k) e d

  moved : {i j i' j' n : ℕ} → i' ≡ i → j' ≡ j → Edits a b i' j' n → Edits a b i j n
  moved {i} {j' = j'} {n} ei ej e =
      subst (λ l. Edits a b i l n) ej (subst (λ k. Edits a b k j' n) ei e)

  adds : (j : ℕ) → Edits a b 0 j j
  adds zero = Edits.done
  adds (suc j) = Edits.add (adds j)

  adds_least : {j n : ℕ} → Edits a b 0 j n → j ≤ n
  adds_least Edits.done = omega arith
  adds_least (Edits.add e) = omega (arith, adds_least e)

  drops : (i : ℕ) → Edits a b i 0 i
  drops zero = Edits.done
  drops (suc i) = Edits.drop (drops i)

  drops_least : {i n : ℕ} → Edits a b i 0 n → i ≤ n
  drops_least Edits.done = omega arith
  drops_least (Edits.drop e) = omega (arith, drops_least e)

  pub adds-IsLeast : (j : ℕ) → IsLeast a b 0 j j
  adds-IsLeast j = (adds j, λ n e. adds_least e)

  pub drops-IsLeast : (i : ℕ) → IsLeast a b i 0 i
  drops-IsLeast i = (drops i, λ n e. drops_least e)

  -- The value without the swap.
  pub step_edits :
      (i j p q r : ℕ)
      → Edits a b i (suc j) p
      → Edits a b (suc i) j q
      → Edits a b i j r
      → Edits a b
          (suc i)
          (suc j)
          (min (min (p + 1) (q + 1)) (r + cost_of (eqb (get_or a i []) (get_or b j []))))
  step_edits i j p q r dp dq dr =
      elim (min3_cases (p + 1) (q + 1) (r + cost_of (eqb (get_or a i []) (get_or b j [])))) [
        | inl e ↦ count (omega (arith, e)) (Edits.drop dp)
        | inr (inl e) ↦ count (omega (arith, e)) (Edits.add dq)
        | inr (inr e) ↦ elim (Bool-cases (eqb (get_or a i []) (get_or b j []))) [
          | inl same ↦
              count (ground (arith, e, same))
                (Edits.keep (eq_of_eqb (get_or a i []) (get_or b j []) same) dr)
          | inr other ↦ count (ground (arith, e, other)) (Edits.change dr)
        ]
      ]

  step_lower :
      (i j p q r n : ℕ)
      → ((m : ℕ) → Edits a b i (suc j) m → p ≤ m)
      → ((m : ℕ) → Edits a b (suc i) j m → q ≤ m)
      → ((m : ℕ) → Edits a b i j m → r ≤ m)
      → Edits a b (suc i) (suc j) n
      → (min (min (p + 1) (q + 1)) (r + cost_of (eqb (get_or a i []) (get_or b j []))) ≤ n)
        ⊎ ((i' j' m : ℕ) × (i ≡ suc i')
            × (j ≡ suc j')
            × (n ≡ suc m)
            × Edits a b i' j' m
            × (get_or a (suc i') [] ≡ get_or b j' [])
            × (get_or a i' [] ≡ get_or b (suc j') []))
  step_lower i j p q r n hp hq hr (Edits.drop {n = m} e) = inl (ground (arith, hp m e))
  step_lower i j p q r n hp hq hr (Edits.add {n = m} e) = inl (ground (arith, hq m e))
  step_lower i j p q r n hp hq hr (Edits.keep {n = m} x e) =
      inl rw (x, eqb_refl (get_or b j [])) (ground (arith, hr m e))
  step_lower i j p q r n hp hq hr (Edits.change {n = m} e) = inl (ground (arith, hr m e))
  step_lower i j p q r n hp hq hr (Edits.swap {i = i'} {j = j'} {n = m} x y e) =
      inr (i', j', m, refl, refl, refl, e, x, y)

  abbrev pub Crossed : ℕ → ℕ → ℕ → ℕ → Type 0
  Crossed i j i' j' =
      (i ≡ suc i')
      × (j ≡ suc j')
      × (get_or a (suc i') [] ≡ get_or b j' [])
      × (get_or a i' [] ≡ get_or b (suc j') [])

  -- The value before the swap is looked at.
  abbrev pub step : ℕ → ℕ → ℕ → ℕ → ℕ → ℕ
  step i j p q r = min (min (p + 1) (q + 1)) (r + cost_of (eqb (get_or a i []) (get_or b j [])))

  pub step-IsLeast :
      (i j p q r : ℕ)
      → IsLeast a b i (suc j) p
      → IsLeast a b (suc i) j q
      → IsLeast a b i j r
      → ((i' j' : ℕ) → Crossed i j i' j' → ⊥)
      → IsLeast a b (suc i) (suc j) (step i j p q r)
  step-IsLeast i j p q r (dp, hp) (dq, hq) (dr, hr) h = (
    step_edits i j p q r dp dq dr,
    λ n e. elim (step_lower i j p q r n hp hq hr e) [
      | inl le ↦ le
      | inr (i', j', m, ei, ej, en, e', x, y) ↦ absurd (h i' j' (ei, ej, x, y))
    ],
  )

  pub swap-IsLeast :
      (i j p q r t : ℕ)
      → IsLeast a b (suc i) (suc (suc j)) p
      → IsLeast a b (suc (suc i)) (suc j) q
      → IsLeast a b (suc i) (suc j) r
      → IsLeast a b i j t
      → get_or a (suc i) [] ≡ get_or b j []
      → get_or a i [] ≡ get_or b (suc j) []
      → IsLeast a b (suc (suc i)) (suc (suc j)) (min (step (suc i) (suc j) p q r) (t + 1))
  swap-IsLeast i j p q r t (dp, hp) (dq, hq) (dr, hr) (dt, ht) x y = (
    elim (min_cases (step (suc i) (suc j) p q r) (t + 1)) [
      | inl e ↦ count (sym e) (step_edits (suc i) (suc j) p q r dp dq dr)
      | inr e ↦ count (omega (arith, e)) (Edits.swap x y dt)
    ],
    λ n e. elim (step_lower (suc i) (suc j) p q r n hp hq hr e) [
      | inl le ↦ min_left (step (suc i) (suc j) p q r) (t + 1) n le
      | inr (i', j', m, ei, ej, en, e', x', y') ↦
          min_right (step (suc i) (suc j) p q r) (t + 1) n
            (omega (arith, en, ht m (moved (omega (arith, ei)) (omega (arith, ej)) e')))
    ],
  )
