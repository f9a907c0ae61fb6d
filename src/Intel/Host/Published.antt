-- ===== src/Intel/Host/Published.antt =====
-- The hosts that pass the classification of internal/intel/intelutil/host.go.
use shard_lure.Common.{◌↔◌, ◌≡◌, ◌≤◌, true, false, none, Bytes, length, arith}
use shard_lure.Common.Result.{ok}
use shard_lure.Netmatch.Parse.{NetLib}
use shard_lure.Netmatch.Public.{is_public_ip}
use shard_lure.Intel.Host.{
  ip, domain, is_numeric_host, is_submittable_hostname, is_shortener, host_name_kind,
  public_host_kind,
}

-- A host is taken for an address exactly when it parses as one and that address is public.
pub public_host_kind-ip :
    (net : NetLib) (host : Bytes)
    → (public_host_kind net host ≡ ok ip) ↔ (is_public_ip (net.parse_ip host) ≡ true)
unfolding public_host_kind host_name_kind is_public_ip
public_host_kind-ip net host = ground arith

-- A host is taken for a domain exactly when it is no address in any spelling, can be a public name,
-- fits the limit of DNS and is no shortener.
pub public_host_kind-domain :
    (net : NetLib) (host : Bytes)
    → (public_host_kind net host ≡ ok domain) ↔ (
        (net.parse_ip host ≡ none)
        × (is_numeric_host host ≡ false)
        × (is_submittable_hostname host ≡ true)
        × (length host ≤ 253)
        × (is_shortener host ≡ false))
unfolding public_host_kind host_name_kind
public_host_kind-domain net host = ground arith
