-- ===== src/Common/Slices.antt =====
-- Go slices as lists: reads and writes by index. An index past the end, where Go panics, reads the
-- default and writes nothing; the loops that use them stay inside.
use Prim.Native.Nat.{ℕ, zero, suc, ◌<◌}
use mathlib.Core.Path.{◌≡◌, refl, ap}
use mathlib.Core.Logic.{◌≢◌}
use mathlib.Core.List.{List, [], ◌∷◌}
use native.Mathlib.Omega.{arith}
use shard_lure.Common.Lists.{length}

module _ {ℓ} {A : Type ℓ} where
  -- `xs[i]`
  abbrev pub get_or : List A → ℕ → A → A
  get_or [] i d = d
  get_or (x ∷ xs) zero d = x
  get_or (x ∷ xs) (suc i) d = get_or xs i d

  -- `xs[i] = v`
  abbrev pub put : List A → ℕ → A → List A
  put [] i v = []
  put (x ∷ xs) zero v = v ∷ xs
  put (x ∷ xs) (suc i) v = x ∷ put xs i v

  -- `make([]A, n)`
  abbrev pub replicate : ℕ → A → List A
  replicate zero x = []
  replicate (suc n) x = x ∷ replicate n x

  pub length-put : (xs : List A) (i : ℕ) (v : A) → length (put xs i v) ≡ length xs
  length-put [] i v = refl
  length-put (x ∷ xs) zero v = refl
  length-put (x ∷ xs) (suc i) v = ap suc (length-put xs i v)

  pub length-replicate : (n : ℕ) (x : A) → length (replicate n x) ≡ n
  length-replicate zero x = refl
  length-replicate (suc n) x = ap suc (length-replicate n x)

  pub get_or-put : (xs : List A) (i : ℕ) (v d : A) → i < length xs → get_or (put xs i v) i d ≡ v
  get_or-put [] i v d h = absurd (omega arith)
  get_or-put (x ∷ xs) zero v d h = refl
  get_or-put (x ∷ xs) (suc i) v d h = get_or-put xs i v d (omega (arith, h))

  pub get_or-put_other :
      (xs : List A) (i k : ℕ) (v d : A) → k ≢ i → get_or (put xs i v) k d ≡ get_or xs k d
  get_or-put_other [] i k v d h = refl
  get_or-put_other (x ∷ xs) zero zero v d h = absurd (h refl)
  get_or-put_other (x ∷ xs) zero (suc k) v d h = refl
  get_or-put_other (x ∷ xs) (suc i) zero v d h = refl
  get_or-put_other (x ∷ xs) (suc i) (suc k) v d h = get_or-put_other xs i k v d (λ e. h (ap suc e))
