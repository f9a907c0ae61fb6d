-- ===== src/Tests/Vetting.antt =====
-- internal/intel at concrete inputs.
use shard_lure.Common.{
  ◌*◌, ◌≡◌, ◌≢◌, refl, false, List, [], ◌∷◌, Option, none, some, Bytes, codes, eqb, has_suffix,
  trim_suffix, to_lower, trim_space, ℤ, pos,
}
use shard_lure.Common.Time.{day}
use shard_lure.Common.Result.{ok, err}
use shard_lure.Netmatch.Ip.{v4, quad, contains}
use shard_lure.Netmatch.Public.{is_public_ip}
use shard_lure.Netmatch.Matcher.{new, has}
use shard_lure.Intel.Options.{window_days}
use shard_lure.Intel.Url.{Url, UrlLib}
use shard_lure.Intel.Host.{ip, public_host_kind, host_name_kind, host_normalise}
use shard_lure.Intel.Abuseipdb
use shard_lure.Intel.Abuseipdb.{ReportCandidate, brute_playbook, dormant, default_max_age_days}
use shard_lure.Intel.Abuseipdb.Policy.{vet-admin}
use shard_lure.Intel.Urlhaus
use shard_lure.Intel.Threatfox
use shard_lure.Intel.Threatfox.{Ioc, malpedia_label, is_sha256_hex}
use shard_lure.Intel.Threatfox.Policy.{as_url_candidate, vet-urlhaus}
use shard_lure.Common.{if◌then◌else◌}
use shard_lure.Netmatch.Matcher.Meaning.{matches}
use shard_lure.Tests.Gates.{
  small_net, small_net-IsNetLib, print, read, read_range, public_text, admin_entries,
}
use shard_lure.Netmatch.Matcher.Meaning.{matches}

abbrev attacker : ReportCandidate
attacker = record {
  src_ip = public_text;
  playbook = codes "Dictionary_Spray";
  probe_score = 90;
  event_count = 400;
  unique_users = 12;
  last_seen = 100 * day;
}

attacker_accepted : Abuseipdb.vet small_net attacker none 50 (101 * day) (pos 2 ∷ []) ≡ ok tt
unfolding Abuseipdb.vet window_days read eqb is_public_ip has brute_playbook trim_space to_lower
    has_suffix
attacker_accepted = refl

abbrev insider : ReportCandidate
insider = record {
  src_ip = codes " 10.0.0.1";
  playbook = codes "Dictionary_Spray";
  probe_score = 90;
  event_count = 400;
  unique_users = 12;
  last_seen = 100 * day;
}

vet-admin_example :
    Abuseipdb.vet small_net insider (some (new small_net admin_entries)) 50 (101 * day) [] ≢ ok tt
unfolding matches read eqb trim_space print read_range contains
vet-admin_example =
    vet-admin small_net insider admin_entries 50 (101 * day) [] (v4 (quad 10 0 0 1))
      small_net-IsNetLib refl refl

attacker_dormant :
    Abuseipdb.vet small_net attacker none 50 (109 * day) [] ≡ err (dormant (pos (9 * day)))
unfolding Abuseipdb.vet window_days read eqb is_public_ip has brute_playbook trim_space to_lower
    has_suffix
attacker_dormant = refl

abbrev page : Url
page = record {
  scheme = codes "http";
  host = codes "8.8.8.8:8080";
  has_user = false;
  hostname = public_text;
  port = codes "8080";
  without_fragment = codes "http://8.8.8.8:8080/x";
}

unfoldable pub parse_page : Bytes → Option Url
parse_page s = if eqb s (codes "http://8.8.8.8:8080/x") then some page else none

unfoldable pub number : Bytes → Option ℤ
number s = if eqb s (codes "8080") then some (pos 8080) else none

abbrev pub small_urls : UrlLib
small_urls = record { net = small_net; parse = parse_page; atoi = number }

abbrev served : Threatfox.Candidate
served = record {
  url = codes "http://8.8.8.8:8080/x";
  sha256 = codes "0123456789ABCDEF0123456789abcdef0123456789abcdef0123456789abcdef";
  size_bytes = 90000;
  origin = codes "quarantine_fetch";
  status = codes "fetched";
  fetched_at = 100 * day;
  file_kind = codes "ELF";
  family = codes "Mirai";
  depth = 0;
}

abbrev submitted : Bytes × List Ioc
submitted = (codes "elf.mirai", Threatfox.iocs served page public_text ip)

served_accepted : Threatfox.vet small_urls served (101 * day) [] ≡ ok submitted
unfolding Threatfox.vet parse_page number read eqb trim_space to_lower window_days is_public_ip
    malpedia_label is_sha256_hex public_host_kind host_name_kind host_normalise trim_suffix
    has_suffix
served_accepted = refl

vet-urlhaus_example : Urlhaus.vet small_urls (as_url_candidate served) (101 * day) [] ≡ ok tt
vet-urlhaus_example = vet-urlhaus small_urls served (101 * day) [] submitted served_accepted
