-- ===== src/Intel/Threatfox/Indicators.antt =====
-- What the gate of internal/intel/threatfox submits.
use shard_lure.Common.{
  ◌⊎◌, map, eqb, ℕ, ◌≤◌, ◌≡◌, is_nil, Bool, true, false, ◌&&◌, ◌||◌, List, [], ◌∷◌, none, Bytes,
  codes, all, length, to_lower, leb, if◌then◌else◌,
}
use shard_lure.Common.Time.{Time}
use shard_lure.Netmatch.Public.{is_public_ip}
use shard_lure.Intel.Url.{Url, UrlLib, join_host_port}
use shard_lure.Intel.Host.{is_shortener, is_numeric_host, is_submittable_hostname, host_normalise}
use shard_lure.Intel.Host.Numbers.{DottedNumbers}
use shard_lure.Intel.Threatfox.{
  Candidate, Ioc, IocType, type_url, type_domain, type_ip_port, type_sha256,
}

abbrev pub is_lower_hex : ℕ → Bool
is_lower_hex r = (leb b'0' r && leb r b'9') || (leb b'a' r && leb r b'f')

-- The address of a host, with the port of the URL or the default one of its scheme.
abbrev pub port_of : Url → Bytes
port_of u =
    if is_nil u.port
    then (if eqb u.scheme (codes "https") then codes "443" else codes "80")
    else u.port

-- What the receiving service may expect of an indicator of each type, and of what in the candidate it
-- tells: the URL is one of http or https without credentials, a host is the URL's, a domain is no
-- address, no dotted numbers, a public name and no shortener, an address is public, a hash is the
-- sample's in 64 lower-case hexadecimal digits.
abbrev pub IsWellFormed : UrlLib → Candidate → Url → IocType → Bytes → Type 0
IsWellFormed lib c u type_url v =
    (v ≡ u.without_fragment)
    × (eqb u.scheme (codes "http") || eqb u.scheme (codes "https") ≡ true)
    × (is_nil u.host ≡ false)
    × (u.has_user ≡ false)
IsWellFormed lib c u type_domain v =
    (v ≡ host_normalise u.hostname)
    × (lib.net.parse_ip v ≡ none)
    × (is_numeric_host v ≡ false)
    × (¬ DottedNumbers v)
    × (is_submittable_hostname v ≡ true)
    × (length v ≤ 253)
    × (is_shortener v ≡ false)
IsWellFormed lib c u type_ip_port v =
    (v ≡ join_host_port (host_normalise u.hostname) (port_of u))
    × (is_public_ip (lib.net.parse_ip (host_normalise u.hostname)) ≡ true)
    × (is_nil (port_of u) ≡ false)
IsWellFormed lib c u type_sha256 v =
    (v ≡ to_lower c.sha256) × (length v ≡ 64) × (all is_lower_hex v ≡ true)

-- One URL, one host and one hash.
abbrev pub AreThree : List Ioc → Type 0
AreThree out =
    (map (λ (i : Ioc). i.ioc_type) out ≡ type_url ∷ type_domain ∷ type_sha256 ∷ [])
    ⊎ (map (λ (i : Ioc). i.ioc_type) out ≡ type_url ∷ type_ip_port ∷ type_sha256 ∷ [])
