-- ===== src/Capture/SpaceGate.antt =====
-- internal/capture/space_gate.go: writes pause while the evidence filesystem is short of space. The
-- reading of the free space is an argument, `none` where it cannot be measured; OnChange is set, and
-- its call is an answer of `allow`.
pub mod Notices
use shard_lure.Common.{
  ℕ, Bool, true, false, not, ◌||◌, ◌&&◌, Option, none, some, ltb, ◌==◌, if◌then◌else◌,
}

pub record SpaceGate : Type 0 where
  pub min_free : ℕ
  pub paused : Bool

-- `NewSpaceGate`
abbrev pub new_space_gate : ℕ → SpaceGate
new_space_gate min_free = record { min_free = min_free; paused = false }

abbrev pub is_short : Option ℕ → ℕ → Bool
is_short none min_free = false
is_short (some free) min_free = ltb free min_free

abbrev pub free_of : Option ℕ → ℕ
free_of none = 0
free_of (some free) = free

abbrev pub differs : Bool → Bool → Bool
differs true b = not b
differs false b = b

-- `Allow`: the answer, the call of OnChange, and the gate; no gate is the nil pointer.
unfoldable pub allow : Option SpaceGate → Option ℕ → Bool × Option (Bool × ℕ) × Option SpaceGate
allow none reading = (true, none, none)
allow (some g) reading =
    if g.min_free == 0
    then (true, none, some g)
    else (let paused = is_short reading g.min_free in
        let notice = if differs paused g.paused then some (paused, free_of reading) else none in
        (not paused, notice, some (record g { paused = paused })))

-- `Paused`
unfoldable pub is_paused : Option SpaceGate → Bool
is_paused none = false
is_paused (some g) = g.paused
