-- ===== src/Common/Maps.antt =====
-- Go's `map[string]string` as an association list with one entry for a key.
use Prim.Native.Nat.{suc}
use mathlib.Core.Path.{◌≡◌, refl, ap}
use mathlib.Core.Logic.{inl, inr}
use mathlib.Core.Bool.{false}
use mathlib.Core.Option.{Option, none, some}
use mathlib.Core.List.{List, [], ◌∷◌}
use native.Mathlib.Omega.{arith}
use shard_lure.Common.Tests.{if◌then◌else◌, Bool-cases}
use shard_lure.Common.Lists.{length}
use shard_lure.Common.Text.{Bytes, eqb, eqb_refl, eq_of_eqb}

abbrev pub Map : Type 0
Map = List (Bytes × Bytes)

-- `v, ok := m[k]`
unfoldable pub lookup : Map → Bytes → Option Bytes
lookup [] k = none
lookup ((j, v) ∷ m) k = let rest = lookup m k in if eqb j k then some v else rest

-- `m[k] = v`
unfoldable pub assign : Map → Bytes → Bytes → Map
assign [] k v = (k, v) ∷ []
assign ((j, w) ∷ m) k v = let rest = assign m k v in if eqb j k then (j, v) ∷ m else (j, w) ∷ rest

pub lookup-assign : (m : Map) (id next : Bytes) → lookup (assign m id next) id ≡ some next
unfolding lookup assign
lookup-assign [] id next = rw (eqb_refl id) refl
lookup-assign ((from, to) ∷ m) id next = ground (arith, lookup-assign m id next)

pub lookup-assign_other :
    (m : Map) (id next k : Bytes) → eqb id k ≡ false → lookup (assign m id next) k ≡ lookup m k
unfolding lookup assign
lookup-assign_other [] id next k h = rw h refl
lookup-assign_other ((from, to) ∷ m) id next k h = elim (Bool-cases (eqb from id)) [
  | inl same ↦
      let apart : eqb from k ≡ false = rw (eq_of_eqb from id same) h in rw (same, apart) refl
  | inr other ↦
      rw other
        (ap (λ rest. if eqb from k then some to else rest) (lookup-assign_other m id next k h))
]

pub length-assign :
    (m : Map) (id next : Bytes) → lookup m id ≡ none → length (assign m id next) ≡ suc (length m)
unfolding lookup assign
length-assign [] id next h = refl
length-assign ((from, to) ∷ m) id next h = ground (arith, h, length-assign m id next)
