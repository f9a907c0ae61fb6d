-- ===== src/Intel/Urlhaus/Policy.antt =====
-- The policy that `Vet` of internal/intel/urlhaus enforces.
use shard_lure.Common.{
  ℕ, ◌*◌, ◌+◌, ◌≤◌, ◌<◌, ◌≡◌, ◌↔◌, ◌⊎◌, is_nil, true, false, List, some, codes, eqb, has_key,
  trim_space, ltb, ℤ, arith, inl, inr, Option-cases,
}
use shard_lure.Common.Time.{Time, hour, day, sub, longer_than, longer_than-sub}
use shard_lure.Common.Result.{Result-cases, ok}
use shard_lure.Intel.Options.{window_days, window_days-le}
use shard_lure.Intel.Url.{Url, UrlLib}
use shard_lure.Intel.Host.{HostKind, public_host_kind, host_normalise}
use shard_lure.Intel.Urlhaus.{
  Candidate, min_payload_bytes, default_active_days, benign_kinds, fetched_origins, bad_port, vet,
}

-- An address that may stand in a public dataset.
pub record IsPublished (lib : UrlLib) (u : Url) (kind : HostKind) : Type 0 where
  pub web : (eqb u.scheme (codes "http") ≡ true) ⊎ (eqb u.scheme (codes "https") ≡ true)
  pub hosted : is_nil u.host ≡ false
  pub anonymous : u.has_user ≡ false
  pub port_valid : (is_nil u.port ≡ true) ⊎ (bad_port (lib.atoi u.port) ≡ false)
  pub public : public_host_kind lib.net (host_normalise u.hostname) ≡ ok kind

-- First-hand proof, within the window, that the address served a payload.
pub record IsServing (c : Candidate) (now : Time) (days : ℕ) : Type 0 where
  pub ours : has_key fetched_origins c.origin ≡ true
  pub first_stage : c.depth ≡ 0
  pub fetched : eqb c.status (codes "fetched") ≡ true
  pub hashed : is_nil c.sha256 ≡ false
  pub sized : min_payload_bytes ≤ c.size_bytes
  pub not_benign : has_key benign_kinds c.file_kind ≡ false
  pub shaped : (is_nil c.file_kind ≡ false) × (eqb c.file_kind (codes "unknown") ≡ false)
  pub dated : 0 < c.fetched_at
  pub recent : now ≤ c.fetched_at + days * day
  pub not_future : c.fetched_at ≤ now + hour

module _ (lib : UrlLib) (c : Candidate) (now : Time) (opts : List ℤ) where
  active_window :
      longer_than (sub now c.fetched_at) (window_days default_active_days opts * day)
      ≡ ltb (c.fetched_at + window_days default_active_days opts * day) now
  active_window =
      longer_than-sub now c.fetched_at (window_days default_active_days opts * day)
        (omega (arith, window_days-le default_active_days opts))

  accepted :
      vet lib c now opts ≡ ok tt
      → (u : Url) × (kind : HostKind) × (lib.parse (trim_space c.url) ≡ some u)
        × IsPublished lib u kind
        × IsServing c now (window_days default_active_days opts)
  unfolding vet
  accepted h = elim (Option-cases (lib.parse (trim_space c.url))) [
    | inl p ↦ ground (arith, h, p)
    | inr (u, p) ↦ elim (Result-cases (public_host_kind lib.net (host_normalise u.hostname))) [
      | inl (kind, q) ↦
          (u, kind, p, ground (arith, h, p, q), ground (arith, h, p, q, active_window))
      | inr (e, q) ↦ ground (arith, h, p, q)
    ]
  ]

  back :
      (u : Url) (kind : HostKind)
      → lib.parse (trim_space c.url) ≡ some u
      → IsPublished lib u kind
      → IsServing c now (window_days default_active_days opts)
      → vet lib c now opts ≡ ok tt
  unfolding vet
  back u kind p a s = ground (arith, active_window)

  -- A URL is accepted exactly when it parses to an address that may be published, and we hold
  -- first-hand proof, within the window that the options leave, that it served a payload.
  pub vet-IsServing : (vet lib c now opts ≡ ok tt) ↔ (
      (u : Url) × (kind : HostKind) × (lib.parse (trim_space c.url) ≡ some u)
      × IsPublished lib u kind
      × IsServing c now (window_days default_active_days opts))
  vet-IsServing = (accepted, λ e. back e.0 e.1 e.2 e.3 e.4)
