-- ===== src/Capture/SpaceGate/Notices.antt =====
-- What an observer of the gate sees.
use shard_lure.Common.{
  ℕ, ◌≡◌, refl, Bool, true, false, not, ◌||◌, List, [], ◌∷◌, Option, none, some, ◌==◌,
  if◌then◌else◌, Bool-cases, inl, inr, arith,
}
use shard_lure.Capture.SpaceGate.{SpaceGate, is_short, free_of, differs, allow, is_paused}

-- The answers of a gate over successive readings, its notices and the gate at the end.
pub answers : Option SpaceGate → List (Option ℕ) → List Bool
answers g [] = []
answers g (r ∷ readings) = let (ok, notice, g') = allow g r in ok ∷ answers g' readings

abbrev pub add_notice : Option (Bool × ℕ) → List Bool → List Bool
add_notice none rest = rest
add_notice (some (paused, free)) rest = paused ∷ rest

unfoldable pub notices : Option SpaceGate → List (Option ℕ) → List Bool
notices g [] = []
notices g (r ∷ readings) =
    let (ok, notice, g') = allow g r in add_notice notice (notices g' readings)

unfoldable pub after_readings : Option SpaceGate → List (Option ℕ) → Option SpaceGate
after_readings g [] = g
after_readings g (r ∷ readings) = after_readings (allow g r).2 readings

-- The last notice, or what the observer started from.
pub last_notice : Bool → List Bool → Bool
last_notice b [] = b
last_notice b (c ∷ cs) = last_notice c cs

-- Each notice is the opposite of the one in front.
abbrev pub Alternates : Bool → List Bool → Type 0
Alternates b [] = Unit
Alternates b (c ∷ cs) = (c ≡ not b) × Alternates c cs

-- With a floor, a write is refused exactly when the free space was measured and lies below it, and
-- the gate then says that it is paused; with no floor nothing is ever refused.
pub allow-is_short :
    (g : SpaceGate) (reading : Option ℕ)
    → ((allow (some g) reading).0 ≡ (g.min_free == 0 || not (is_short reading g.min_free)))
      × (is_paused (allow (some g) reading).2
          ≡ (if g.min_free == 0 then g.paused else is_short reading g.min_free))
unfolding allow is_paused
allow-is_short g reading = (ground arith, ground arith)

notice_change :
    (paused was : Bool) (free : ℕ) (rest : List Bool)
    → Alternates paused rest
    → Alternates was (add_notice (if differs paused was then some (paused, free) else none) rest)
      × (last_notice was
            (add_notice (if differs paused was then some (paused, free) else none) rest)
          ≡ last_notice paused rest)
unfolding last_notice
notice_change true true free rest k = (k, refl)
notice_change true false free rest k = ((refl, k), refl)
notice_change false true free rest k = ((refl, k), refl)
notice_change false false free rest k = (k, refl)

notice_step :
    (g : Option SpaceGate) (reading : Option ℕ) (rest : List Bool)
    → Alternates (is_paused (allow g reading).2) rest
    → Alternates (is_paused g) (add_notice (allow g reading).1 rest)
      × (last_notice (is_paused g) (add_notice (allow g reading).1 rest)
          ≡ last_notice (is_paused (allow g reading).2) rest)
unfolding allow is_paused
notice_step none reading rest = λ k. (k, refl)
notice_step (some g) reading rest = elim (Bool-cases (g.min_free == 0)) [
  | inl off ↦ rw off (λ k. (k, refl))
  | inr on ↦
      rw on (λ k. notice_change (is_short reading g.min_free) g.paused (free_of reading) rest k)
]

-- The notices alternate between paused and resumed, from the state at the start, and the last one
-- tells the state that the gate ends in: an observer never ends on the wrong one.
pub notices-Alternates :
    (g : Option SpaceGate) (readings : List (Option ℕ))
    → Alternates (is_paused g) (notices g readings)
      × (last_notice (is_paused g) (notices g readings) ≡ is_paused (after_readings g readings))
unfolding notices after_readings last_notice
notices-Alternates g [] = (tt, refl)
notices-Alternates g (r ∷ readings) =
    let (alt, last) = notices-Alternates (allow g r).2 readings in
    let (alt', last') = notice_step g r (notices (allow g r).2 readings) alt in
    (alt', cc (last, last'))
