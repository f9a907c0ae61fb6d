-- ===== src/Script/Distance/Rows.antt =====
-- The loops of `Distance` fill their rows with least numbers of edits.
use shard_lure.Common.{
  ℕ, zero, suc, ◌+◌, ◌-◌, ◌<◌, ◌≡◌, refl, inl, inr, min, Bool, true, false, ◌&&◌, List, [], Bytes,
  eqb, eqb_refl, eq_of_eqb, ltb, ◌==◌, length, get_or, put, replicate, length-put, length-replicate,
  get_or-put, get_or-put_other, if◌then◌else◌, Bool-cases, subst, ◌∙◌, arith,
}
use shard_lure.Script.Distance.{fill, cell, fill_row, fill_rows, edit_distance}
use shard_lure.Script.Distance.Optimal.{
  IsLeast, step, Crossed, step-IsLeast, swap-IsLeast, adds-IsLeast, drops-IsLeast,
}

one_less : (i : ℕ) → suc i - 1 ≡ i
one_less i = omega arith

two_less : (i : ℕ) → suc (suc i) - 2 ≡ i
two_less i = omega arith

plus_one : (i : ℕ) → i + 1 ≡ suc i
plus_one i = omega arith

past_one : (i : ℕ) → ltb 1 (suc (suc i)) ≡ true
past_one i = ground arith

module _ (a b : List Bytes) where
  -- The first `k` cells of the row of `i`.
  abbrev Filled : ℕ → ℕ → List ℕ → Type 0
  Filled i k row = (t : ℕ) → t < k → IsLeast a b i t (get_or row t 0)

  abbrev at_step : List ℕ → List ℕ → ℕ → ℕ → ℕ
  at_step prev cur i j = step a b i j (get_or prev (suc j) 0) (get_or cur j 0) (get_or prev j 0)

  abbrev is_swap : ℕ → ℕ → Bool
  is_swap i j =
      eqb (get_or a (suc i) []) (get_or b j []) && eqb (get_or a i []) (get_or b (suc j) [])

  cell_top :
      (prev2 prev cur : List ℕ) (j : ℕ) → cell a b prev2 prev cur 1 (suc j) ≡ at_step prev cur 0 j
  unfolding cell
  cell_top prev2 prev cur j = rw (one_less j) refl

  cell_left :
      (prev2 prev cur : List ℕ) (i : ℕ)
      → cell a b prev2 prev cur (suc (suc i)) 1 ≡ at_step prev cur (suc i) 0
  unfolding cell
  cell_left prev2 prev cur i = rw (one_less (suc i), past_one i) refl

  cell_inner :
      (prev2 prev cur : List ℕ) (i j : ℕ)
      → cell a b prev2 prev cur (suc (suc i)) (suc (suc j)) ≡ (
          if is_swap i j
          then min (at_step prev cur (suc i) (suc j)) (get_or prev2 j 0 + 1)
          else at_step prev cur (suc i) (suc j))
  unfolding cell
  cell_inner prev2 prev cur i j =
      rw (one_less (suc i), one_less (suc j), two_less i, two_less j, past_one i, past_one j) refl

  abbrev Swapped : ℕ → ℕ → Type 0
  Swapped i j = (get_or a (suc i) [] ≡ get_or b j []) × (get_or a i [] ≡ get_or b (suc j) [])

  moved_left : (i' i j : ℕ) → i' ≡ i → Swapped i' j → Swapped i j
  moved_left i' i j e = subst (λ k. Swapped k j) e

  moved_right : (i j' j : ℕ) → j' ≡ j → Swapped i j' → Swapped i j
  moved_right i j' j e = subst (Swapped i) e

  crossed_swap : (i j : ℕ) → Swapped i j → is_swap i j ≡ true
  crossed_swap i j (x, y) = rw (x, y, eqb_refl (get_or b j []), eqb_refl (get_or b (suc j) [])) refl

  not-Crossed : (i j i' j' : ℕ) → is_swap i j ≡ false → Crossed a b (suc i) (suc j) i' j' → ⊥
  not-Crossed i j i' j' absent (ei, ej, x, y) = ground (
    arith,
    absent,
    crossed_swap i j
        (moved_left i' i j (omega (arith, ei)) (moved_right i' j' j (omega (arith, ej)) (x, y))),
  )

  inner :
      (i j p q r t : ℕ)
      → IsLeast a b (suc i) (suc (suc j)) p
      → IsLeast a b (suc (suc i)) (suc j) q
      → IsLeast a b (suc i) (suc j) r
      → IsLeast a b i j t
      → IsLeast a b (suc (suc i)) (suc (suc j)) (
          if is_swap i j
          then min (step a b (suc i) (suc j) p q r) (t + 1)
          else step a b (suc i) (suc j) p q r)
  inner i j p q r t dp dq dr dt = elim (Bool-cases (is_swap i j)) [
    | inl there ↦ rw there (
        swap-IsLeast a b i j p q r t dp dq dr dt
          (eq_of_eqb (get_or a (suc i) []) (get_or b j []) (ground (arith, there)))
          (eq_of_eqb (get_or a i []) (get_or b (suc j) []) (ground (arith, there))))
    | inr absent ↦ rw absent (
        step-IsLeast a b (suc i) (suc j) p q r dp dq dr
          (λ i' j' c. absurd (not-Crossed i j i' j' absent c)))
  ]

  cell-IsLeast :
      (prev2 prev cur : List ℕ) (i j : ℕ)
      → ((h : ℕ) → i ≡ suc h → Filled h (length b + 1) prev2)
      → Filled i (length b + 1) prev
      → Filled (suc i) (suc j) cur
      → j < length b
      → IsLeast a b (suc i) (suc j) (cell a b prev2 prev cur (suc i) (suc j))
  cell-IsLeast prev2 prev cur zero j h2 h1 h0 k = rw (cell_top prev2 prev cur j) (
      step-IsLeast a b 0 j _ _ _ (h1 (suc j) (omega (arith, k))) (h0 j (omega arith))
        (h1 j (omega (arith, k))) (λ i' j' (ei, ej, x, y). absurd (omega (arith, ei))))
  cell-IsLeast prev2 prev cur (suc i) zero h2 h1 h0 k = rw (cell_left prev2 prev cur i) (
      step-IsLeast a b (suc i) 0 _ _ _ (h1 1 (omega (arith, k))) (h0 0 (omega arith))
        (h1 0 (omega (arith, k))) (λ i' j' (ei, ej, x, y). absurd (omega (arith, ej))))
  cell-IsLeast prev2 prev cur (suc i) (suc j) h2 h1 h0 k = rw (cell_inner prev2 prev cur i j) (
      inner i j (get_or prev (suc (suc j)) 0) (get_or cur (suc j) 0) (get_or prev (suc j) 0)
        (get_or prev2 j 0) (h1 (suc (suc j)) (omega (arith, k))) (h0 (suc j) (omega arith))
        (h1 (suc j) (omega (arith, k))) (h2 i refl j (omega (arith, k))))

  put-Filled :
      (i k : ℕ) (row : List ℕ) (v : ℕ)
      → k < length row
      → Filled i k row
      → IsLeast a b i k v
      → Filled i (suc k) (put row k v)
  put-Filled i k row v l h d t e = elim (Bool-cases (t == k)) [
    | inl same ↦
        let met : k ≡ t = ground (arith, same) in
        subst (λ m. IsLeast a b i m (get_or (put row k v) m 0)) met (rw (get_or-put row k v 0 l) d)
    | inr other ↦
        rw (get_or-put_other row k t v 0 (λ m. ground (arith, m, other)))
          (h t (ground (arith, e, other)))
  ]

  -- The loop over `j`.
  fill_row-Filled :
      (prev2 prev : List ℕ) (i n j : ℕ) (cur : List ℕ)
      → ((h : ℕ) → i ≡ suc h → Filled h (length b + 1) prev2)
      → Filled i (length b + 1) prev
      → length cur ≡ length b + 1
      → n + suc j ≡ length b + 1
      → Filled (suc i) (suc j) cur
      → Filled (suc i) (length b + 1) (fill_row a b prev2 prev (suc i) n (suc j) cur)
        × (length (fill_row a b prev2 prev (suc i) n (suc j) cur) ≡ length b + 1)
  unfolding fill_row
  fill_row-Filled prev2 prev i zero j cur h2 h1 l e h0 = (λ t k. h0 t (omega (arith, k, e)), l)
  fill_row-Filled prev2 prev i (suc n) j cur h2 h1 l e h0 =
      let v = cell a b prev2 prev cur (suc i) (suc j) in
      let here : IsLeast a b (suc i) (suc j) v =
        cell-IsLeast prev2 prev cur i j h2 h1 h0 (omega (arith, e)) in
      rw (plus_one (suc j)) (
        fill_row-Filled prev2 prev i n (suc j) (put cur (suc j) v) h2 h1
          (length-put cur (suc j) v ∙ l) (omega (arith, e))
          (put-Filled (suc i) (suc j) cur v (omega (arith, l, e)) h0 here))

  fill-Filled :
      (n j : ℕ) (row : List ℕ)
      → length row ≡ length b + 1
      → n + j ≡ length b + 1
      → Filled 0 j row
      → Filled 0 (length b + 1) (fill n j row) × (length (fill n j row) ≡ length b + 1)
  unfolding fill
  fill-Filled zero j row l e h = (λ t k. h t (omega (arith, k, e)), l)
  fill-Filled (suc n) j row l e h = rw (plus_one j) (
      fill-Filled n (suc j) (put row j j) (length-put row j j ∙ l) (omega (arith, e))
        (put-Filled 0 j row j (omega (arith, l, e)) h (adds-IsLeast a b j)))

  -- The loop over `i`.
  fill_rows-Filled :
      (n i : ℕ) (prev2 prev cur : List ℕ)
      → ((h : ℕ) → i ≡ suc h → Filled h (length b + 1) prev2)
      → Filled i (length b + 1) prev
      → length prev2 ≡ length b + 1
      → length prev ≡ length b + 1
      → length cur ≡ length b + 1
      → (m : ℕ) → n + i ≡ m
      → Filled m (length b + 1) (fill_rows a b n (suc i) prev2 prev cur)
  unfolding fill_rows
  fill_rows-Filled zero i prev2 prev cur h2 h1 l2 l1 l0 m e =
      let met : i ≡ m = omega (arith, e) in subst (λ k. Filled k (length b + 1) prev) met h1
  fill_rows-Filled (suc n) i prev2 prev cur h2 h1 l2 l1 l0 m e =
      let (filled, long) =
        fill_row-Filled prev2 prev i (length b) 0 (put cur 0 (suc i)) h2 h1
          (length-put cur 0 (suc i) ∙ l0) (omega arith)
          (put-Filled (suc i) 0 cur (suc i) (omega (arith, l0)) (λ t k. absurd (omega (arith, k)))
            (drops-IsLeast a b (suc i))) in
      rw (plus_one (suc i)) (
        fill_rows-Filled n (suc i) prev
          (fill_row a b prev2 prev (suc i) (length b) 1 (put cur 0 (suc i))) prev2
          (λ h k.
            let met : i ≡ h = omega (arith, k) in subst (λ g. Filled g (length b + 1) prev) met h1)
          filled l1 long l2 m (omega (arith, e)))

-- The number that `Distance` divides is the optimal string alignment distance: that of some
-- alignment of all of `a` with all of `b`, made of additions, removals and changes of one token and
-- swaps of two neighbours, in which no swapped pair is edited again, and no alignment of this kind
-- takes fewer edits. Edits that touch a swapped pair again may be fewer and are not compared.
pub edit_distance-IsLeast :
    (a b : List Bytes) → IsLeast a b (length a) (length b) (edit_distance a b)
unfolding edit_distance
edit_distance-IsLeast a b =
    let zeros : List ℕ = replicate (length b + 1) 0 in
    let long : length zeros ≡ length b + 1 = length-replicate (length b + 1) 0 in
    let (filled, length_fill) =
      fill-Filled a b (length b + 1) 0 zeros long (omega arith)
        (λ t k. absurd (omega (arith, k))) in
    fill_rows-Filled a b (length a) 0 zeros (fill (length b + 1) 0 zeros) zeros
      (λ h k. absurd (omega (arith, k))) filled long length_fill long (length a) (omega arith)
      (length b) (omega arith)
