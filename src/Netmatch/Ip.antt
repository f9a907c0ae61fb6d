-- ===== src/Netmatch/Ip.antt =====
-- Go's `net.IP` and `net.IPNet` as far as internal/netmatch uses them. `To4` turns an IPv4-mapped
-- IPv6 address into its IPv4 form, so an address is `v4` with 32 bits or `v6` with 128 bits that
-- are not mapped; a slice of another length is `malformed`.
use shard_lure.Common.{ℕ, ◌+◌, ◌-◌, ◌*◌, ◌/◌, ◌^◌, Bool, false, ◌||◌, not, ◌==◌}

pub data Ip : Type 0 where
  v4 : ℕ → Ip
  v6 : ℕ → Ip
  malformed : Ip

-- A network: the address that `ParseCIDR` masked, and the length of its prefix.
pub data IpNet : Type 0 where
  net4 : ℕ → ℕ → IpNet
  net6 : ℕ → ℕ → IpNet

abbrev pub quad : ℕ → ℕ → ℕ → ℕ → ℕ
quad a b c d = a * 2 ^ 24 + b * 2 ^ 16 + c * 2 ^ 8 + d

-- The leading groups of an IPv6 address, the others zero.
abbrev pub groups : ℕ → ℕ → ℕ → ℕ → ℕ
groups a b c d = a * 2 ^ 112 + b * 2 ^ 96 + c * 2 ^ 80 + d * 2 ^ 64

-- `(*IPNet).Contains`: the leading bits agree; another address family never matches.
unfoldable pub contains : IpNet → Ip → Bool
contains (net4 base ones) (v4 n) = n / 2 ^ (32 - ones) == base / 2 ^ (32 - ones)
contains (net6 base ones) (v6 n) = n / 2 ^ (128 - ones) == base / 2 ^ (128 - ones)
contains _ _ = false

-- `IsGlobalUnicast`: not the broadcast, unspecified, loopback, multicast or link-local addresses.
unfoldable pub is_global_unicast : Ip → Bool
is_global_unicast (v4 n) = not (
    n == quad 255 255 255 255
    || n == 0
    || n / 2 ^ 24 == 127
    || n / 2 ^ 28 == 14
    || n / 2 ^ 16 == 169 * 2 ^ 8 + 254)
is_global_unicast (v6 n) =
    not (n == 0 || n == 1 || n / 2 ^ 120 == 255 || n / 2 ^ 118 == 0xfe80 / 2 ^ 6)
is_global_unicast malformed = false
