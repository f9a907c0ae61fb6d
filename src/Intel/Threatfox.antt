-- ===== src/Intel/Threatfox.antt =====
-- internal/intel/threatfox/vet.go and malpedia.go: which indicators may be submitted to ThreatFox.
pub mod Policy
pub mod Indicators
use shard_lure.Common.{
  ℕ, ◌*◌, ◌+◌, is_nil, Bool, true, false, ◌&&◌, ◌||◌, not, List, [], ◌∷◌, ◌++◌, Option, none, some,
  map, all, length, Bytes, codes, eqb, has_key, trim_space, to_lower, ltb, leb, ◌==◌, ℤ, pos,
  negsuc, if◌then◌else◌,
}
use shard_lure.Common.Time.{Time, is_zero, hour, day, sub, after, longer_than}
use shard_lure.Common.Result.{Result, ok, err, return_if, ◌>>=◌, ◌>>◌}
use shard_lure.Netmatch.Parse.{NetLib}
use shard_lure.Intel.Options.{window_days}
use shard_lure.Intel.Url.{Url, UrlLib, join_host_port}
use shard_lure.Intel.Host.{HostKind, ip, domain, HostReason, public_host_kind, host_normalise}

pub record Candidate : Type 0 where
  pub url : Bytes
  pub sha256 : Bytes
  pub size_bytes : ℕ
  pub origin : Bytes
  pub status : Bytes
  pub fetched_at : Time
  pub file_kind : Bytes
  pub family : Bytes
  pub depth : ℕ

pub data IocType : Type 0 where
  type_url type_domain type_ip_port type_sha256 : IocType

pub data ThreatType : Type 0 where
  payload_delivery payload : ThreatType

pub record Ioc : Type 0 where
  pub value : Bytes
  pub ioc_type : IocType
  pub threat_type : ThreatType

pub data Reason : Type 0 where
  unparseable not_http no_host has_credentials invalid_port : Reason
  not_fetched_by_us : Bytes → Reason
  harvested_url : Reason
  not_fetched : Bytes → Reason
  no_hash bad_hash too_small : Reason
  benign : Bytes → Reason
  unrecognised_shape : Reason
  no_label : Bytes → Reason
  host_refused : HostReason → Reason
  unknown_fetch_time : Reason
  inactive : ℤ → ℕ → Reason
  clock_skew : Reason

abbrev pub min_payload_bytes : ℕ
min_payload_bytes = 64

abbrev pub default_active_days : ℕ
default_active_days = 3

abbrev pub benign_kinds : List Bytes
benign_kinds = map codes ("SSH key" ∷ [])

abbrev pub fetched_origins : List Bytes
fetched_origins = map codes ("quarantine_fetch" ∷ [])

-- The table of malpedia.go: the families and their verified labels.
abbrev pub malpedia_labels : List (Bytes × Bytes)
malpedia_labels =
    (codes "mirai", codes "elf.mirai")
    ∷ (codes "gafgyt", codes "elf.bashlite")
    ∷ (codes "redtail", codes "elf.redtail")
    ∷ (codes "xmrig", codes "elf.xmrig")
    ∷ (codes "mozi", codes "elf.mozi")
    ∷ (codes "tsunami", codes "elf.tsunami")
    ∷ []

pub look_up : List (Bytes × Bytes) → Bytes → Option Bytes
look_up [] k = none
look_up ((j, v) ∷ table) k = if eqb k j then some v else look_up table k

unfoldable pub malpedia_label : Bytes → Option Bytes
unfolding look_up
malpedia_label family = look_up malpedia_labels (to_lower (trim_space family))

unfoldable pub is_sha256_hex : Bytes → Bool
is_sha256_hex s =
    if not (length s == 64)
    then false
    else all
        (λ r.
          (leb b'0' r && leb r b'9') || ((leb b'a' r && leb r b'f') || (leb b'A' r && leb r b'F')))
        s

-- `cleanURL`: the URL with no fragment.
abbrev pub clean_url : Url → Bytes
clean_url u = u.without_fragment

unfoldable pub ip_port : Url → Bytes → Bytes
ip_port u host =
    let port =
      if is_nil u.port
      then (if eqb u.scheme (codes "https") then codes "443" else codes "80")
      else u.port in
    join_host_port host port

-- `perr != nil || n < 1 || n > 65535`
unfoldable pub bad_port : Option ℤ → Bool
bad_port none = true
bad_port (some (pos n)) = ltb n 1 || ltb 65535 n
bad_port (some (negsuc n)) = true

abbrev pub parsed : Option Url → Result Reason Url
parsed none = err unparseable
parsed (some u) = ok u

abbrev pub labelled : Bytes → Option Bytes → Result Reason Bytes
labelled family none =
    err (no_label (if is_nil (trim_space family) then codes "unclassified" else trim_space family))
labelled family (some label) = ok label

abbrev pub host_verdict : Result HostReason HostKind → Result Reason HostKind
host_verdict (ok k) = ok k
host_verdict (err r) = err (host_refused r)

-- The indicator for the host, by its kind.
abbrev pub host_ioc : Url → Bytes → HostKind → Ioc
host_ioc u host ip = record {
  value = ip_port u host;
  ioc_type = type_ip_port;
  threat_type = payload_delivery;
}
host_ioc u host domain = record {
  value = host;
  ioc_type = type_domain;
  threat_type = payload_delivery;
}

-- The set of indicators of an accepted candidate.
unfoldable pub iocs : Candidate → Url → Bytes → HostKind → List Ioc
iocs c u host kind =
    record { value = clean_url u; ioc_type = type_url; threat_type = payload_delivery }
    ∷ host_ioc u host kind
    ∷ record { value = to_lower c.sha256; ioc_type = type_sha256; threat_type = payload }
    ∷ []

-- `Vet`: the Malpedia label and the indicators, or the reason to skip.
unfoldable pub vet : UrlLib → Candidate → Time → List ℤ → Result Reason (Bytes × List Ioc)
unfolding bad_port
vet lib c now opts = do
  let active_days = window_days default_active_days opts
  u ← parsed (lib.parse (trim_space c.url))
  return_if (not (eqb u.scheme (codes "http")) && not (eqb u.scheme (codes "https"))) not_http
  return_if (is_nil u.host) no_host
  return_if u.has_user has_credentials
  return_if (not (is_nil u.port) && bad_port (lib.atoi u.port)) invalid_port
  return_if (not (has_key fetched_origins c.origin)) (not_fetched_by_us c.origin)
  return_if (not (c.depth == 0)) harvested_url
  return_if (not (eqb c.status (codes "fetched"))) (not_fetched c.status)
  return_if (is_nil c.sha256) no_hash
  return_if (not (is_sha256_hex c.sha256)) bad_hash
  return_if (ltb c.size_bytes min_payload_bytes) too_small
  return_if (has_key benign_kinds c.file_kind) (benign c.file_kind)
  return_if (is_nil c.file_kind || eqb c.file_kind (codes "unknown")) unrecognised_shape
  label ← labelled c.family (malpedia_label c.family)
  let host = host_normalise u.hostname
  kind ← host_verdict (public_host_kind lib.net host)
  return_if (is_zero c.fetched_at) unknown_fetch_time
  return_if (longer_than (sub now c.fetched_at) (active_days * day))
      (inactive (sub now c.fetched_at) active_days)
  return_if (after c.fetched_at (now + 1 * hour)) clock_skew
  ok (label, iocs c u host kind)
