-- ===== src/Web/SwrCache.antt =====
-- internal/web/swr_cache.go: a cache that serves an expired value while one refresh runs. `get` and a
-- refresh that ends each hold the mutex, so they are steps; `pending` is the list of the goroutines
-- that are out, by the generation that they saw. The drain and the clock are arguments.
pub mod Fresh
use shard_lure.Common.{
  ℕ, zero, suc, ◌+◌, ◌==◌, Bool, true, false, not, ◌||◌, ◌&&◌, List, [], ◌∷◌, Option, none, some,
  if◌then◌else◌, ℤ, pos, negsuc,
}
use shard_lure.Common.Time.{Time, sub, at_least}

module _ {ℓ} (A : Type ℓ) where
  pub record Cache : Type ℓ where
    pub val : A
    pub ok : Bool
    pub at : Time
    pub refreshing : Bool
    pub gen : ℕ
    pub pending : List ℕ

-- A computation: the value and its stamp, or none on an error.
abbrev pub Computed {ℓ} : Type ℓ → Type ℓ
Computed A = Option (A × Time)

module _ {ℓ} {A : Type ℓ} where
  -- The first value, computed under the mutex.
  unfoldable pub fill : Cache A → Computed A → Option A × Cache A
  fill c none = (none, c)
  fill c (some (v, at)) = (some v, record c { val = v; at = at; ok = true })

  -- `get`: `entered` is the answer of `bg.enter()`, `first` what `compute` gives where no value is
  -- held. `none` is an error. The generation wraps at 2 ^ 64, which no process reaches.
  unfoldable pub get : Cache A → Time → ℕ → Bool → Computed A → Option A × Cache A
  get c now ttl entered first =
      if not c.ok
      then fill c first
      else if at_least (sub now c.at) ttl && (not c.refreshing && entered)
      then (some c.val, record c { refreshing = true; pending = c.gen ∷ c.pending })
      else (some c.val, c)

  unfoldable pub publish : Cache A → ℕ → Bool → Computed A → Cache A
  publish c gen cancelled none = c
  publish c gen cancelled (some (v, at)) =
      if not cancelled && gen == c.gen then record c { val = v; at = at } else c

  -- The end of the goroutine at the head of the list.
  unfoldable pub finish : Cache A → List ℕ → Bool → Computed A → Cache A
  finish c [] cancelled result = c
  finish c (gen ∷ pending) cancelled result =
      publish (record c { refreshing = false; pending = pending }) gen cancelled result

  -- `peek`
  abbrev pub peek : Cache A → A × Bool
  peek c = (c.val, c.ok)

  -- `invalidate`
  unfoldable pub invalidate : Cache A → Cache A
  invalidate c = record c { ok = false; gen = c.gen + 1 }
