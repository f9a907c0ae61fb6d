-- ===== src/Netmatch/Parse.antt =====
-- What internal/netmatch calls of Go's package net, as an interface: the parsers and the printer of
-- addresses. Their code is not part of the repository.
use shard_lure.Common.{◌≡◌, Option, some, Bytes}
use shard_lure.Netmatch.Ip.{Ip, IpNet}

pub record NetLib : Type 0 where
  pub parse_ip : Bytes → Option Ip  -- net.ParseIP
  pub parse_cidr : Bytes → Option IpNet  -- net.ParseCIDR, the network it returns
  pub ip_string : Ip → Bytes  -- (net.IP).String

-- The printed form of a parsed address is parsed back to the same address.
pub record IsNetLib (net : NetLib) : Type 0 where
  pub print_parse :
      (s : Bytes) (ip : Ip) → net.parse_ip s ≡ some ip → net.parse_ip (net.ip_string ip) ≡ some ip
