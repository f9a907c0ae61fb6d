-- ===== src/Intel/Bazaar/Policy.antt =====
-- The policy that `Vet` of internal/intel/bazaar enforces.
use shard_lure.Common.{
  ℕ, ◌*◌, ◌+◌, ◌≤◌, ◌<◌, ◌≡◌, ◌≢◌, ◌↔◌, ◌⊎◌, is_nil, true, false, List, codes, eqb, has_key, any,
  ltb, ℤ, arith,
}
use shard_lure.Common.Time.{Time, day, sub, longer_than, longer_than-sub}
use shard_lure.Common.Result.{ok}
use shard_lure.Intel.Options.{window_days, window_days-le}
use shard_lure.Intel.Bazaar.{
  Candidate, Classification, min_sample_bytes, default_freshness_days, malware_tags,
  fetched_origins, benign_kinds, vet,
}

-- A malware signal: a family, a tag that names malware, or a file of known shape that the attacker
-- itself brought in.
abbrev pub IsMalware : Candidate → Classification → Type 0
IsMalware c cls =
    (is_nil cls.family ≡ false)
    ⊎ (any (has_key malware_tags) cls.tags ≡ true)
    ⊎ ((has_key fetched_origins c.origin ≡ true)
        × (is_nil cls.file_kind ≡ false)
        × (eqb cls.file_kind (codes "unknown") ≡ false)
        × (c.depth ≡ 0))

pub record IsSample (c : Candidate) (cls : Classification) (now : Time) (days : ℕ) : Type 0 where
  pub not_transcript : eqb c.origin (codes "cowrie_tty") ≡ false
  pub sized : min_sample_bytes ≤ c.size_bytes
  pub not_benign : has_key benign_kinds cls.file_kind ≡ false
  pub dated : 0 < c.observed_at
  pub fresh : now ≤ c.observed_at + days * day
  pub malware : IsMalware c cls

module _ (c : Candidate) (cls : Classification) (now : Time) (opts : List ℤ) where
  fresh_window :
      longer_than (sub now c.observed_at) (window_days default_freshness_days opts * day)
      ≡ ltb (c.observed_at + window_days default_freshness_days opts * day) now
  fresh_window =
      longer_than-sub now c.observed_at (window_days default_freshness_days opts * day)
        (omega (arith, window_days-le default_freshness_days opts))

  accepted :
      vet c cls now opts ≡ ok tt → IsSample c cls now (window_days default_freshness_days opts)
  unfolding vet
  accepted h = ground (arith, fresh_window)

  back : IsSample c cls now (window_days default_freshness_days opts) → vet c cls now opts ≡ ok tt
  unfolding vet
  back r = ground (arith, r, fresh_window)

  -- A sample is accepted exactly when no hard reject applies to it, it was first seen within the
  -- window that the options leave, and some malware signal holds.
  pub vet-IsSample :
      (vet c cls now opts ≡ ok tt) ↔ IsSample c cls now (window_days default_freshness_days opts)
  vet-IsSample = (accepted, back)

-- A second-stage sample, which ShardLure found written in a script, needs a family or a malware tag:
-- without one it is never accepted, wherever it was fetched from.
pub vet-harvested :
    (c : Candidate) (cls : Classification) (now : Time) (opts : List ℤ)
    → 0 < c.depth
    → is_nil cls.family ≡ true
    → any (has_key malware_tags) cls.tags ≡ false
    → vet c cls now opts ≢ ok tt
vet-harvested c cls now opts d f t h = ground (arith, ((vet-IsSample c cls now opts).0 h).malware)
