-- ===== src/Capture/HostGate/Exclusive.antt =====
-- One fetch per host, through any history of the gate.
use shard_lure.Common.{
  ℕ, zero, suc, ◌+◌, ◌≡◌, ◌↔◌, refl, true, false, ◌&&◌, not, List, [], ◌∷◌, ◌++◌, Option, none,
  some, is_some, Bytes, eqb, eqb_refl, eq_of_eqb, has_key, if◌then◌else◌, arith,
}
use shard_lure.Capture.HostGate.{
  Grant, HostGate, HostLib, host_gate_key_for, acquire_key, try_acquire, delete_key, grant_at,
  spend, release_grant, release,
}

-- How many grants for a host are out.
unfoldable pub live : Bytes → List Grant → ℕ
live host [] = 0
live host (t ∷ grants) =
    let rest = live host grants in if not t.released && eqb t.host host then suc rest else rest

-- The hosts that are held are those of the grants that are out, and each has one.
abbrev pub IsExclusive : HostGate → Type 0
IsExclusive g = (host : Bytes) → live host g.grants ≡ (if has_key g.held host then 1 else 0)

live-append :
    (host : Bytes) (grants more : List Grant)
    → live host (grants ++ more) ≡ live host grants + live host more
unfolding live
live-append host [] more = omega arith
live-append host (t ∷ grants) more = ground (arith, live-append host grants more)

has_key-delete_key :
    (ks : List Bytes) (host k : Bytes)
    → has_key (delete_key ks host) k ≡ (has_key ks k && not (eqb host k))
unfolding delete_key
has_key-delete_key [] host k = refl
has_key-delete_key (j ∷ ks) host k = ground (
  arith,
  has_key-delete_key ks host k,
  eq_of_eqb j host,
  eq_of_eqb k j,
  eq_of_eqb host k,
  eqb_refl host,
  eqb_refl k,
)

live-spend :
    (i : ℕ) (grants : List Grant) (t : Grant) (host : Bytes)
    → grant_at i grants ≡ some t
    → t.released ≡ false
    → live host (spend i grants) + (if eqb t.host host then 1 else 0) ≡ live host grants
unfolding live spend grant_at
live-spend i [] t host e h = cc
live-spend zero (s ∷ grants) t host e h = ground (arith, e, h)
live-spend (suc i) (s ∷ grants) t host e h = ground (arith, live-spend i grants t host e h)

acquire-IsExclusive :
    (g : HostGate) (key : Option Bytes) → IsExclusive g → IsExclusive (acquire_key g key).1
unfolding acquire_key live
acquire-IsExclusive g none k host = k host
acquire-IsExclusive g (some key) k host = ground (
  arith,
  k host,
  k key,
  live-append host g.grants (record { host = key; released = false } ∷ []),
  eq_of_eqb key host,
  eq_of_eqb host key,
  eqb_refl host,
)

release_grant-IsExclusive :
    (g : HostGate) (i : ℕ) (o : Option Grant)
    → grant_at i g.grants ≡ o
    → IsExclusive g
    → IsExclusive (release_grant g i o)
unfolding release_grant
release_grant-IsExclusive g i none e k host = k host
release_grant-IsExclusive g i (some t) e k host =
    ground (arith, e, k host, live-spend i g.grants t host, has_key-delete_key g.held t.host host)

release-IsExclusive : (g : HostGate) (i : ℕ) → IsExclusive g → IsExclusive (release g i)
unfolding release
release-IsExclusive g i k = release_grant-IsExclusive g i (grant_at i g.grants) refl k

-- A call on the gate; a worker may call a release function as often as it likes.
pub data Call : Type 0 where
  acquires : Bytes → Call
  releases : ℕ → Call

unfoldable pub run_call : HostLib → HostGate → Call → HostGate
run_call lib g (acquires url) = (try_acquire lib g url).1
run_call lib g (releases i) = release g i

unfoldable pub run : HostLib → HostGate → List Call → HostGate
run lib g [] = g
run lib g (c ∷ calls) = run lib (run_call lib g c) calls

run_call-IsExclusive :
    (lib : HostLib) (g : HostGate) (c : Call) → IsExclusive g → IsExclusive (run_call lib g c)
unfolding run_call try_acquire
run_call-IsExclusive lib g (acquires url) k = acquire-IsExclusive g (host_gate_key_for lib url) k
run_call-IsExclusive lib g (releases i) k = release-IsExclusive g i k

-- From a state in which it holds, such as the empty gate, every history of calls, with releases
-- repeated or late, leaves each host with one grant that is out if the host is held and with none
-- otherwise: a host is never fetched from twice at a time, and never blocked without a fetch.
pub run-IsExclusive :
    (lib : HostLib) (g : HostGate) (calls : List Call)
    → IsExclusive g
    → IsExclusive (run lib g calls)
unfolding run
run-IsExclusive lib g [] k = k
run-IsExclusive lib g (c ∷ calls) k =
    run-IsExclusive lib (run_call lib g c) calls (run_call-IsExclusive lib g c k)

acquire_free :
    (g : HostGate) (key : Option Bytes) (host : Bytes)
    → key ≡ some host
    → IsExclusive g
    → (is_some (acquire_key g key).0 ≡ true) ↔ (live host g.grants ≡ 0)
unfolding acquire_key
acquire_free g none host e k = cc
acquire_free g (some key) host e k = ground (arith, e, k host)

-- After any history of the gate, a URL with a host is granted exactly when no grant for its host is
-- out.
pub try_acquire-live :
    (lib : HostLib) (g : HostGate) (calls : List Call) (url host : Bytes)
    → IsExclusive g
    → host_gate_key_for lib url ≡ some host
    → (is_some (try_acquire lib (run lib g calls) url).0 ≡ true)
      ↔ (live host (run lib g calls).grants ≡ 0)
unfolding try_acquire
try_acquire-live lib g calls url host k e =
    acquire_free (run lib g calls) (host_gate_key_for lib url) host e
      (run-IsExclusive lib g calls k)
