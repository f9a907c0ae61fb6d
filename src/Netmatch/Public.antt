-- ===== src/Netmatch/Public.antt =====
-- internal/netmatch/public.go: `IsPublicIP`.
pub mod Intervals
use shard_lure.Common.{
  refl, is_some, ℕ, ◌+◌, ◌-◌, ◌*◌, ◌/◌, ◌^◌, ◌≡◌, Bool, true, false, ◌&&◌, not, List, [], ◌∷◌,
  Option, none, some, any, if◌then◌else◌,
}
use shard_lure.Netmatch.Ip.{
  Ip, v4, v6, malformed, IpNet, net4, net6, quad, groups, contains, is_global_unicast,
}

abbrev pub non_public_ipv4_ranges : List IpNet
non_public_ipv4_ranges =
    net4 (quad 0 0 0 0) 8
    ∷ net4 (quad 10 0 0 0) 8
    ∷ net4 (quad 100 64 0 0) 10
    ∷ net4 (quad 127 0 0 0) 8
    ∷ net4 (quad 169 254 0 0) 16
    ∷ net4 (quad 172 16 0 0) 12
    ∷ net4 (quad 192 0 0 0) 24
    ∷ net4 (quad 192 0 2 0) 24
    ∷ net4 (quad 192 31 196 0) 24
    ∷ net4 (quad 192 52 193 0) 24
    ∷ net4 (quad 192 88 99 0) 24
    ∷ net4 (quad 192 168 0 0) 16
    ∷ net4 (quad 192 175 48 0) 24
    ∷ net4 (quad 198 18 0 0) 15
    ∷ net4 (quad 198 51 100 0) 24
    ∷ net4 (quad 203 0 113 0) 24
    ∷ net4 (quad 224 0 0 0) 4
    ∷ net4 (quad 240 0 0 0) 4
    ∷ []

abbrev pub non_public_ipv6_ranges : List IpNet
non_public_ipv6_ranges =
    net6 0 128
    ∷ net6 1 128
    ∷ net6 (groups 0x64 0xff9b 0 0) 96
    ∷ net6 (groups 0x64 0xff9b 1 0) 48
    ∷ net6 (groups 0x100 0 0 0) 64
    ∷ net6 (groups 0x100 0 0 1) 64
    ∷ net6 (groups 0x2001 0 0 0) 23
    ∷ net6 (groups 0x2001 0xdb8 0 0) 32
    ∷ net6 (groups 0x2002 0 0 0) 16
    ∷ net6 (groups 0x2620 0x4f 0x8000 0) 48
    ∷ net6 (groups 0x3fff 0 0 0) 20
    ∷ net6 (groups 0x5f00 0 0 0) 16
    ∷ net6 (groups 0xfc00 0 0 0) 7
    ∷ net6 (groups 0xfe80 0 0 0) 10
    ∷ net6 (groups 0xff00 0 0 0) 8
    ∷ []

unfoldable pub in_any_range : Ip → List IpNet → Bool
unfolding contains
in_any_range ip ranges = any (λ n. contains n ip) ranges

unfoldable pub is_public_ip : Option Ip → Bool
unfolding is_global_unicast in_any_range
is_public_ip none = false
is_public_ip (some (v4 n)) =
    if not (is_global_unicast (v4 n))
    then false
    else not (in_any_range (v4 n) non_public_ipv4_ranges)
is_public_ip (some (v6 n)) =
    if not (is_global_unicast (v6 n))
    then false
    else not (in_any_range (v6 n) non_public_ipv6_ranges)
is_public_ip (some malformed) = false

pub is_public_ip-is_some : (o : Option Ip) → is_public_ip o ≡ true → is_some o ≡ true
unfolding is_public_ip
is_public_ip-is_some none h = cc
is_public_ip-is_some (some a) h = refl
