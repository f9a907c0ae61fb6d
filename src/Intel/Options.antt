-- ===== src/Intel/Options.antt =====
-- The optional argument of every gate, `opts ...VetOptions`: a number of days that may only tighten
-- the window of the gate.
use shard_lure.Common.{
  ℕ, ◌≤◌, ◌&&◌, List, [], ◌∷◌, ℤ, pos, negsuc, is_positive, lt_nat, to_ℕ, if◌then◌else◌, arith,
}

-- `if len(opts) > 0 && opts[0] > 0 && opts[0] < days { days = opts[0] }`
unfoldable pub window_days : ℕ → List ℤ → ℕ
window_days days [] = days
window_days days (o ∷ opts) = if is_positive o && lt_nat o days then to_ℕ o else days

pub window_days-le : (days : ℕ) (opts : List ℤ) → window_days days opts ≤ days
unfolding window_days
window_days-le days [] = omega arith
window_days-le days (pos n ∷ opts) = ground arith
window_days-le days (negsuc n ∷ opts) = ground arith
