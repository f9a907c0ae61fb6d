-- ===== src/Capture/HostGate.antt =====
-- internal/capture/hostgate.go: at most one fetch per host. `held` is the list of the map's keys. The
-- release function of a grant is the number of the grant, and its `sync.Once` the field `released`.
pub mod Exclusive
pub mod Spent
use shard_lure.Common.{
  ℕ, zero, suc, is_nil, Bool, true, false, ◌||◌, List, [], ◌∷◌, ◌++◌, Option, none, some, Bytes,
  eqb, has_key, to_lower, trim_suffix, length, if◌then◌else◌,
}
use shard_lure.Intel.Url.{Url, UrlLib}

pub record Grant : Type 0 where
  pub host : Bytes
  pub released : Bool

pub record HostGate : Type 0 where
  pub held : List Bytes
  pub grants : List Grant

-- What the gate calls of net/url and net/netip: `canonical h` is `a.Unmap().String()` where
-- `netip.ParseAddr(h)` gives an address `a`.
pub record HostLib : Type 0 where
  pub urls : UrlLib
  pub canonical : Bytes → Option Bytes

-- `NewHostGate`
abbrev pub new_host_gate : HostGate
new_host_gate = record { held = []; grants = [] }

abbrev pub or_text : Option Bytes → Bytes → Bytes
or_text none h = h
or_text (some s) h = s

-- `hostGateKey`
unfoldable pub host_gate_key : HostLib → Bytes → Bytes
host_gate_key lib hostname =
    let h = trim_suffix (to_lower hostname) b'.' in
    if is_nil h then [] else or_text (lib.canonical h) h

abbrev pub key_of : HostLib → Option Url → Option Bytes
key_of lib none = none
key_of lib (some u) =
    let host = host_gate_key lib u.hostname in if is_nil host then none else some host

-- `hostGateKeyFor`
unfoldable pub host_gate_key_for : HostLib → Bytes → Option Bytes
host_gate_key_for lib url = key_of lib (lib.urls.parse url)

-- `TryAcquire` on the key: the number of the grant, or none where the URL is refused or its host busy.
unfoldable pub acquire_key : HostGate → Option Bytes → Option ℕ × HostGate
acquire_key g none = (none, g)
acquire_key g (some host) = if has_key g.held host then (none, g) else (
  some (length g.grants),
  record {
    held = host ∷ g.held;
    grants = g.grants ++ record { host = host; released = false } ∷ [];
  },
)

-- `TryAcquire`
unfoldable pub try_acquire : HostLib → HostGate → Bytes → Option ℕ × HostGate
try_acquire lib g url = acquire_key g (host_gate_key_for lib url)

-- `delete(g.held, host)`
unfoldable pub delete_key : List Bytes → Bytes → List Bytes
delete_key [] host = []
delete_key (k ∷ ks) host = let rest = delete_key ks host in if eqb k host then rest else k ∷ rest

unfoldable pub grant_at : ℕ → List Grant → Option Grant
grant_at i [] = none
grant_at zero (t ∷ grants) = some t
grant_at (suc i) (t ∷ grants) = grant_at i grants

unfoldable pub spend : ℕ → List Grant → List Grant
spend i [] = []
spend zero (t ∷ grants) = record t { released = true } ∷ grants
spend (suc i) (t ∷ grants) = t ∷ spend i grants

unfoldable pub release_grant : HostGate → ℕ → Option Grant → HostGate
release_grant g i none = g
release_grant g i (some t) =
    if t.released then g else record { held = delete_key g.held t.host; grants = spend i g.grants }

-- The function that `TryAcquire` returned.
unfoldable pub release : HostGate → ℕ → HostGate
release g i = release_grant g i (grant_at i g.grants)
