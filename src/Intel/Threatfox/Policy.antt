-- ===== src/Intel/Threatfox/Policy.antt =====
-- What `Vet` of internal/intel/threatfox accepts, against the gate of URLhaus.
use shard_lure.Common.{
  ◌≡◌, refl, List, Option, none, some, Bytes, trim_space, ℤ, pos, negsuc, arith, inl, inr,
  Option-cases,
}
use shard_lure.Common.Time.{Time}
use shard_lure.Common.Result.{Result-cases, ok}
use shard_lure.Intel.Url.{Url, UrlLib}
use shard_lure.Intel.Host.{HostKind, public_host_kind, host_normalise}
use shard_lure.Intel.Urlhaus
use shard_lure.Intel.Threatfox.{Candidate, Ioc, malpedia_label, bad_port, vet}

-- The same artifact as a candidate of URLhaus.
abbrev pub as_url_candidate : Candidate → Urlhaus.Candidate
as_url_candidate c = record {
  url = c.url;
  sha256 = c.sha256;
  size_bytes = c.size_bytes;
  origin = c.origin;
  status = c.status;
  fetched_at = c.fetched_at;
  file_kind = c.file_kind;
  depth = c.depth;
}

bad_port_same : (o : Option ℤ) → bad_port o ≡ Urlhaus.bad_port o
unfolding bad_port Urlhaus.bad_port
bad_port_same none = refl
bad_port_same (some (pos n)) = refl
bad_port_same (some (negsuc n)) = refl

module _ (lib : UrlLib) (c : Candidate) (now : Time) (opts : List ℤ) (out : Bytes × List Ioc)
    (h : vet lib c now opts ≡ ok out) where
  pub vet-parse : (u : Url) × (lib.parse (trim_space c.url) ≡ some u)
  unfolding vet
  vet-parse = elim (Option-cases (lib.parse (trim_space c.url))) [
    | inl p ↦ ground (arith, h, p)
    | inr e ↦ e
  ]

  pub vet-label : (label : Bytes) × (malpedia_label c.family ≡ some label)
  unfolding vet
  vet-label = elim (Option-cases (malpedia_label c.family)) [
    | inl q ↦ (let (u, p) = vet-parse in ground (arith, h, p, q))
    | inr e ↦ e
  ]

  pub vet-host :
      (kind : HostKind) × (public_host_kind lib.net (host_normalise vet-parse.0.hostname) ≡ ok kind)
  unfolding vet
  vet-host = elim (Result-cases (public_host_kind lib.net (host_normalise vet-parse.0.hostname))) [
    | inl e ↦ e
    | inr (e, q) ↦ ground (arith, h, vet-parse.1, vet-label.1, q)
  ]

  -- The gates agree: an artifact that is accepted for ThreatFox is accepted for URLhaus, at the
  -- same time and under the same options.
  pub vet-urlhaus : Urlhaus.vet lib (as_url_candidate c) now opts ≡ ok tt
  unfolding vet Urlhaus.vet
  vet-urlhaus =
      ground
        (arith, h, vet-parse.1, vet-label.1, vet-host.1, bad_port_same (lib.atoi vet-parse.0.port))
