-- ===== src/Intel/Bazaar.antt =====
-- internal/intel/bazaar/vet.go: which captured samples may be submitted to MalwareBazaar.
pub mod Policy
use shard_lure.Common.{
  ℕ, ◌*◌, is_nil, Bool, ◌&&◌, ◌||◌, not, List, [], ◌∷◌, map, Bytes, codes, eqb, has_key, any, ltb,
  ◌==◌, ℤ, if◌then◌else◌,
}
use shard_lure.Common.Time.{Time, is_zero, day, sub, longer_than}
use shard_lure.Common.Result.{Result, ok, err, return_if, ◌>>=◌, ◌>>◌}
use shard_lure.Intel.Options.{window_days}

-- The fields of `Candidate` and `Classification` that `Vet` reads.
pub record Candidate : Type 0 where
  pub size_bytes : ℕ
  pub origin : Bytes
  pub observed_at : Time
  pub depth : ℕ

pub record Classification : Type 0 where
  pub tags : List Bytes
  pub family : Bytes
  pub file_kind : Bytes

pub data Reason : Type 0 where
  tty_transcript too_small : Reason
  benign : Bytes → Reason
  stale : ℕ → Reason
  harvested_no_signal unconfirmed : Reason

abbrev pub min_sample_bytes : ℕ
min_sample_bytes = 64

abbrev pub default_freshness_days : ℕ
default_freshness_days = 10

abbrev pub malware_tags : List Bytes
malware_tags =
    map codes
      ("miner" ∷ "dropper" ∷ "botnet" ∷ "scanner" ∷ "proxyware" ∷ "ransomware" ∷ "rootkit" ∷ [])

abbrev pub fetched_origins : List Bytes
fetched_origins = map codes ("quarantine_fetch" ∷ "cowrie_download" ∷ "cowrie_file_download" ∷ [])

abbrev pub benign_kinds : List Bytes
benign_kinds = map codes ("SSH key" ∷ [])

-- The accept signals, tried in order once no hard reject has fired.
unfoldable pub accept_signals : Candidate → Classification → Result Reason (Unit {0})
accept_signals c cls =
    if not (is_nil cls.family)
    then ok tt
    else if any (has_key malware_tags) cls.tags
    then ok tt
    else if has_key fetched_origins c.origin
        && (not (is_nil cls.file_kind) && not (eqb cls.file_kind (codes "unknown")))
    then (if not (c.depth == 0) then err harvested_no_signal else ok tt)
    else err unconfirmed

-- `Vet`
unfoldable pub vet : Candidate → Classification → Time → List ℤ → Result Reason (Unit {0})
unfolding accept_signals
vet c cls now opts = do
  let fresh_days = window_days default_freshness_days opts
  let max_freshness = fresh_days * day
  return_if (eqb c.origin (codes "cowrie_tty")) tty_transcript
  return_if (ltb c.size_bytes min_sample_bytes) too_small
  return_if (has_key benign_kinds cls.file_kind) (benign cls.file_kind)
  return_if (is_zero c.observed_at || longer_than (sub now c.observed_at) max_freshness)
      (stale fresh_days)
  accept_signals c cls
