-- ===== src/Intel/Urlhaus.antt =====
-- internal/intel/urlhaus/vet.go: which URLs may be submitted to URLhaus.
pub mod Policy
use shard_lure.Common.{
  ℕ, ◌*◌, is_nil, Bool, true, false, ◌&&◌, ◌||◌, not, List, [], ◌∷◌, Option, none, some, map, Bytes,
  codes, eqb, has_key, trim_space, ltb, leb, ◌==◌, ◌+◌, ℤ, pos, negsuc, if◌then◌else◌,
}
use shard_lure.Common.Time.{Time, is_zero, hour, day, sub, after, longer_than}
use shard_lure.Common.Result.{Result, ok, err, return_if, ◌>>=◌, ◌>>◌}
use shard_lure.Netmatch.Parse.{NetLib}
use shard_lure.Intel.Options.{window_days}
use shard_lure.Intel.Url.{Url, UrlLib}
use shard_lure.Intel.Host.{HostKind, HostReason, public_host_kind, host_normalise}

pub record Candidate : Type 0 where
  pub url : Bytes
  pub sha256 : Bytes
  pub size_bytes : ℕ
  pub origin : Bytes
  pub status : Bytes
  pub fetched_at : Time
  pub file_kind : Bytes
  pub depth : ℕ

pub data Reason : Type 0 where
  unparseable not_http no_host has_credentials invalid_port : Reason
  not_fetched_by_us : Bytes → Reason
  harvested_url : Reason
  not_fetched : Bytes → Reason
  no_hash too_small : Reason
  benign : Bytes → Reason
  host_refused : HostReason → Reason
  unknown_fetch_time : Reason
  inactive : ℤ → ℕ → Reason
  clock_skew unrecognised_shape : Reason

abbrev pub min_payload_bytes : ℕ
min_payload_bytes = 64

abbrev pub default_active_days : ℕ
default_active_days = 3

abbrev pub benign_kinds : List Bytes
benign_kinds = map codes ("SSH key" ∷ [])

abbrev pub fetched_origins : List Bytes
fetched_origins = map codes ("quarantine_fetch" ∷ [])

-- `perr != nil || n < 1 || n > 65535`
unfoldable pub bad_port : Option ℤ → Bool
bad_port none = true
bad_port (some (pos n)) = ltb n 1 || ltb 65535 n
bad_port (some (negsuc n)) = true

abbrev pub parsed : Option Url → Result Reason Url
parsed none = err unparseable
parsed (some u) = ok u

abbrev pub host_verdict : Result HostReason HostKind → Result Reason (Unit {0})
host_verdict (ok k) = ok tt
host_verdict (err r) = err (host_refused r)

-- `Vet`
unfoldable pub vet : UrlLib → Candidate → Time → List ℤ → Result Reason (Unit {0})
unfolding bad_port
vet lib c now opts = do
  let active_days = window_days default_active_days opts
  u ← parsed (lib.parse (trim_space c.url))
  return_if (not (eqb u.scheme (codes "http")) && not (eqb u.scheme (codes "https"))) not_http
  return_if (is_nil u.host) no_host
  return_if u.has_user has_credentials
  return_if (not (is_nil u.port) && bad_port (lib.atoi u.port)) invalid_port
  return_if (not (has_key fetched_origins c.origin)) (not_fetched_by_us c.origin)
  return_if (not (c.depth == 0)) harvested_url
  return_if (not (eqb c.status (codes "fetched"))) (not_fetched c.status)
  return_if (is_nil c.sha256) no_hash
  return_if (ltb c.size_bytes min_payload_bytes) too_small
  return_if (has_key benign_kinds c.file_kind) (benign c.file_kind)
  host_verdict (public_host_kind lib.net (host_normalise u.hostname))
  return_if (is_zero c.fetched_at) unknown_fetch_time
  return_if (longer_than (sub now c.fetched_at) (active_days * day))
      (inactive (sub now c.fetched_at) active_days)
  return_if (after c.fetched_at (now + 1 * hour)) clock_skew
  return_if (is_nil c.file_kind || eqb c.file_kind (codes "unknown")) unrecognised_shape
  ok tt
