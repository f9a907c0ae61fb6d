-- ===== src/Script/Distance.antt =====
-- internal/script/distance.go: the distance of two token lists, by three rolling rows. Its quotients
-- are fractions: the lengths are far below 2^26, where the float64 quotients compare as the fractions
-- do, with each other and with 0.12 and 0.8.
pub mod Optimal
pub mod Rows
pub mod Order
pub mod Family
use shard_lure.Common.{
  ℕ, zero, suc, ◌+◌, ◌-◌, ◌*◌, min, max, Bool, true, false, ◌&&◌, not, List, [], ◌∷◌, Option, none,
  some, Bytes, eqb, ltb, leb, ◌==◌, length, get_or, put, replicate, if◌then◌else◌,
}

-- A float64 quotient of lengths, `num / den`.
pub record Fraction : Type 0 where
  pub num : ℕ
  pub den : ℕ

-- `p < q`
unfoldable pub less : Fraction → Fraction → Bool
less p q = ltb (p.num * q.den) (q.num * p.den)

-- `make([]int, n)`, then `for j := range prev { prev[j] = j }` from `j` on
unfoldable pub fill : ℕ → ℕ → List ℕ → List ℕ
fill zero j row = row
fill (suc n) j row = fill n (j + 1) (put row j j)

-- The value for `cur[j]`; `cur` holds the values left of it.
unfoldable pub cell : List Bytes → List Bytes → List ℕ → List ℕ → List ℕ → ℕ → ℕ → ℕ
cell a b prev2 prev cur i j =
    let cost = if eqb (get_or a (i - 1) []) (get_or b (j - 1) []) then 0 else 1 in
    let v =
      min (min (get_or prev j 0 + 1) (get_or cur (j - 1) 0 + 1)) (get_or prev (j - 1) 0 + cost) in
    if ltb 1 i
      && (ltb 1 j
          && (eqb (get_or a (i - 1) []) (get_or b (j - 2) [])
              && eqb (get_or a (i - 2) []) (get_or b (j - 1) [])))
    then min v (get_or prev2 (j - 2) 0 + 1)
    else v

-- `for j := 1; j <= lb; j++`, with `n` rounds left
unfoldable pub fill_row : List Bytes → List Bytes → List ℕ → List ℕ → ℕ → ℕ → ℕ → List ℕ → List ℕ
fill_row a b prev2 prev i zero j cur = cur
fill_row a b prev2 prev i (suc n) j cur =
    fill_row a b prev2 prev i n (j + 1) (put cur j (cell a b prev2 prev cur i j))

-- `for i := 1; i <= la; i++`, with `n` rounds left; answers the last `prev`
unfoldable pub fill_rows : List Bytes → List Bytes → ℕ → ℕ → List ℕ → List ℕ → List ℕ → List ℕ
fill_rows a b zero i prev2 prev cur = prev
fill_rows a b (suc n) i prev2 prev cur =
    fill_rows a b n (i + 1) prev (fill_row a b prev2 prev i (length b) 1 (put cur 0 i)) prev2

-- `prev[lb]` at the end of `Distance`
unfoldable pub edit_distance : List Bytes → List Bytes → ℕ
edit_distance a b =
    let zeros = replicate (length b + 1) 0 in
    get_or (fill_rows a b (length a) 1 zeros (fill (length b + 1) 0 zeros) zeros) (length b) 0

-- `Distance`
unfoldable pub distance : List Bytes → List Bytes → Fraction
distance a b =
    if length a == 0 && length b == 0
    then record { num = 0; den = 1 }
    else record { num = edit_distance a b; den = max (length a) (length b) }

-- `InLengthBand`; 0.8 is 8/10
unfoldable pub in_length_band : ℕ → ℕ → Bool
in_length_band a b = not (a == 0) && (not (b == 0) && leb (8 * max a b) (10 * min a b))

pub record Rep : Type 0 where
  pub fingerprint : Bytes
  pub tokens : List Bytes

-- `best, bestD`
pub record Best : Type 0 where
  pub fingerprint : Bytes
  pub dist : Fraction

-- One round of the loop of `AssignFamily`
unfoldable pub better : List Bytes → Rep → Best → Best
better tokens r best =
    if in_length_band (length tokens) (length r.tokens) && less (distance tokens r.tokens) best.dist
    then record { fingerprint = r.fingerprint; dist = distance tokens r.tokens }
    else best

unfoldable pub closest : List Bytes → List Rep → Best → Best
closest tokens [] best = best
closest tokens (r ∷ reps) best = closest tokens reps (better tokens r best)

-- `FamilyThreshold`, 0.12
abbrev pub family_threshold : Fraction
family_threshold = record { num = 12; den = 100 }

-- `AssignFamily`; the answer `"", 0, false` is none
unfoldable pub assign_family : List Bytes → List Rep → Option Best
assign_family tokens reps =
    let best =
      closest tokens reps (record { fingerprint = []; dist = record { num = 2; den = 1 } }) in
    if eqb best.fingerprint []
    then none
    else if less family_threshold best.dist
    then none
    else some best
