-- ===== src/Capture/HostGate/Spent.antt =====
-- The release functions of the gate, called again.
use shard_lure.Common.{
  ℕ, zero, suc, ◌≡◌, refl, true, List, [], ◌∷◌, ◌++◌, Option, none, some, Bytes, has_key,
  Bool-cases, inl, inr, arith,
}
use shard_lure.Capture.HostGate.{
  Grant, HostGate, HostLib, host_gate_key_for, acquire_key, try_acquire, grant_at, spend,
  release_grant, release,
}
use shard_lure.Capture.HostGate.Exclusive.{Call, acquires, releases, run_call, run}

-- The grant is none, or its release function has run.
abbrev pub IsSpent : Option Grant → Type 0
IsSpent none = ⊥
IsSpent (some t) = t.released ≡ true

grant_at-append :
    (i : ℕ) (grants more : List Grant)
    → IsSpent (grant_at i grants)
    → IsSpent (grant_at i (grants ++ more))
unfolding grant_at
grant_at-append i [] more h = absurd h
grant_at-append zero (t ∷ grants) more h = h
grant_at-append (suc i) (t ∷ grants) more h = grant_at-append i grants more h

grant_at-spend :
    (i j : ℕ) (grants : List Grant)
    → IsSpent (grant_at i grants)
    → IsSpent (grant_at i (spend j grants))
unfolding grant_at spend
grant_at-spend i j [] h = absurd h
grant_at-spend zero zero (t ∷ grants) h = refl
grant_at-spend zero (suc j) (t ∷ grants) h = h
grant_at-spend (suc i) zero (t ∷ grants) h = h
grant_at-spend (suc i) (suc j) (t ∷ grants) h = grant_at-spend i j grants h

IsSpent-acquire :
    (g : HostGate) (key : Option Bytes) (i : ℕ)
    → IsSpent (grant_at i g.grants)
    → IsSpent (grant_at i (acquire_key g key).1.grants)
unfolding acquire_key
IsSpent-acquire g none i h = h
IsSpent-acquire g (some key) i h = elim (Bool-cases (has_key g.held key)) [
  | inl busy ↦ rw busy h
  | inr free ↦ rw free (grant_at-append i g.grants _ h)
]

IsSpent-release :
    (g : HostGate) (j : ℕ) (o : Option Grant) (i : ℕ)
    → IsSpent (grant_at i g.grants)
    → IsSpent (grant_at i (release_grant g j o).grants)
unfolding release_grant
IsSpent-release g j none i h = h
IsSpent-release g j (some t) i h = elim (Bool-cases t.released) [
  | inl done ↦ rw done h
  | inr out ↦ rw out (grant_at-spend i j g.grants h)
]

IsSpent-run :
    (lib : HostLib) (g : HostGate) (calls : List Call) (i : ℕ)
    → IsSpent (grant_at i g.grants)
    → IsSpent (grant_at i (run lib g calls).grants)
unfolding run run_call try_acquire release
IsSpent-run lib g [] i h = h
IsSpent-run lib g (acquires url ∷ calls) i h =
    IsSpent-run lib (run_call lib g (acquires url)) calls i
      (IsSpent-acquire g (host_gate_key_for lib url) i h)
IsSpent-run lib g (releases j ∷ calls) i h =
    IsSpent-run lib (run_call lib g (releases j)) calls i
      (IsSpent-release g j (grant_at j g.grants) i h)

spent_idle : (g : HostGate) (i : ℕ) (o : Option Grant) → IsSpent o → release_grant g i o ≡ g
unfolding release_grant
spent_idle g i none h = absurd h
spent_idle g i (some t) h = ground (arith, h)

spend_at :
    (i : ℕ) (grants : List Grant) (t : Grant)
    → grant_at i grants ≡ some t
    → IsSpent (grant_at i (spend i grants))
unfolding grant_at spend
spend_at i [] t e = cc
spend_at zero (s ∷ grants) t e = refl
spend_at (suc i) (s ∷ grants) t e = spend_at i grants t e

release_spends :
    (g : HostGate) (i : ℕ) (t : Grant) (o : Option Grant)
    → grant_at i g.grants ≡ o
    → o ≡ some t
    → IsSpent (grant_at i (release_grant g i o).grants)
unfolding release_grant
release_spends g i t none e s = cc
release_spends g i t (some u) e s = elim (Bool-cases u.released) [
  | inl done ↦ rw (done, e) done
  | inr out ↦ rw out (spend_at i g.grants u e)
]

-- A release function that has run does nothing more: whatever was granted since, for the same host
-- or another, calling it again changes nothing.
pub release-again :
    (lib : HostLib) (g : HostGate) (i : ℕ) (t : Grant) (calls : List Call)
    → grant_at i g.grants ≡ some t
    → release (run lib (release g i) calls) i ≡ run lib (release g i) calls
unfolding release
release-again lib g i t calls e =
    spent_idle (run lib (release g i) calls) i (grant_at i (run lib (release g i) calls).grants)
      (IsSpent-run lib (release g i) calls i (release_spends g i t (grant_at i g.grants) refl e))
