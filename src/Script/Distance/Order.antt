-- ===== src/Script/Distance/Order.antt =====
-- The order of the fractions that distances are.
use native.Mathlib.Nat.{mul-le-mul_left, mul-lt-mul_of_pos_right, lt_of_mul-lt-mul_right}
use shard_lure.Common.{ℕ, ◌*◌, ◌<◌, ◌≤◌, ◌≡◌, true, false, arith}
use shard_lure.Script.Distance.{Fraction, less}

cross : (a b c d e f : ℕ) → 0 < f → a * d < c * b → c * f ≤ e * d → a * f < e * b
cross a b c d e f k lo hi =
    lt_of_mul-lt-mul_right d
      (omega (arith, mul-lt-mul_of_pos_right {k = f} lo k, mul-le-mul_left b hi))

-- The order of fractions: below a fraction that is not above a third one is below the third.
pub less_le : (p q r : Fraction) → 0 < r.den → less p q ≡ true → less r q ≡ false → less p r ≡ true
unfolding less
less_le p q r k lo hi =
    let lower : p.num * q.den < q.num * p.den = ground (arith, lo) in
    let upper : q.num * r.den ≤ r.num * q.den = ground (arith, hi) in
    ground (arith, cross p.num p.den q.num q.den r.num r.den k lower upper)

pub less_antisym : (p q : Fraction) → less p q ≡ true → less q p ≡ false
unfolding less
less_antisym p q h = ground (arith, h)

pub less_irrefl : (p : Fraction) → less p p ≡ false
unfolding less
less_irrefl p = ground arith
