-- ===== src/Intel/Abuseipdb.antt =====
-- internal/intel/abuseipdb/vet.go: which attackers may be reported to AbuseIPDB. Scores and counts
-- are natural numbers; EventCount is never negative in the store.
pub mod Policy
use shard_lure.Common.{
  ℕ, ◌*◌, Bool, ◌&&◌, ◌||◌, not, List, Option, none, some, Bytes, codes, has_suffix, to_lower,
  trim_space, is_some, ltb, ℤ,
}
use shard_lure.Common.Time.{Time, is_zero, day, sub, longer_than}
use shard_lure.Common.Result.{Result, ok, return_if, ◌>>=◌, ◌>>◌}
use shard_lure.Netmatch.Parse.{NetLib}
use shard_lure.Netmatch.Public.{is_public_ip}
use shard_lure.Netmatch.Matcher.{Set, has}
use shard_lure.Intel.Options.{window_days}

pub record ReportCandidate : Type 0 where
  pub src_ip : Bytes
  pub playbook : Bytes
  pub probe_score : ℕ
  pub event_count : ℕ
  pub unique_users : ℕ
  pub last_seen : Time

pub data Reason : Type 0 where
  malformed_ip private_ip admin_ip no_last_seen : Reason
  dormant : ℤ → Reason
  not_brute_force : Bytes → Reason
  below_probe_floor below_volume_floor : Reason

abbrev pub min_event_floor : ℕ
min_event_floor = 20

abbrev pub min_user_floor : ℕ
min_user_floor = 3

abbrev pub default_max_age_days : ℕ
default_max_age_days = 7

unfoldable pub brute_playbook : Bytes → Bool
brute_playbook pb =
    let label = to_lower (trim_space pb) in
    has_suffix label (codes "_spray") || has_suffix label (codes "_enum")

-- `Vet`; `admin` is `none` when no admin addresses are configured.
unfoldable pub vet :
    NetLib → ReportCandidate → Option Set → ℕ → Time → List ℤ → Result Reason (Unit {0})
vet net c admin min_probe now opts = do
  let ip = trim_space c.src_ip
  let max_age_days = window_days default_max_age_days opts
  return_if (not (is_some (net.parse_ip ip))) malformed_ip
  return_if (not (is_public_ip (net.parse_ip ip))) private_ip
  return_if (is_some admin && has net admin ip) admin_ip
  return_if (is_zero c.last_seen) no_last_seen
  return_if (longer_than (sub now c.last_seen) (max_age_days * day)) (dormant (sub now c.last_seen))
  return_if (not (brute_playbook c.playbook)) (not_brute_force c.playbook)
  return_if (ltb c.probe_score min_probe) below_probe_floor
  return_if (ltb c.event_count min_event_floor || ltb c.unique_users min_user_floor)
      below_volume_floor
  ok tt
