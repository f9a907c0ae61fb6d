-- ===== src/Tests/Playbooks.antt =====
-- internal/actor/playbook.go at concrete inputs.
use shard_lure.Common.{
  ◌*◌, ◌≡◌, ◌≢◌, refl, false, List, [], ◌∷◌, none, Bytes, codes, eqb, to_lower, has_prefix,
}
use shard_lure.Common.Time.{day}
use shard_lure.Common.Result.{ok}
use shard_lure.Intel.Abuseipdb
use shard_lure.Intel.Abuseipdb.{ReportCandidate, brute_playbook}
use shard_lure.Actor.Playbook.{
  Features, add_all, add, classify, classify_playbook, cowrie_playbook, classify_cowrie_playbook,
  has_part, is_cn_user, is_mostly_lower_alpha, count_alpha, is_default_user, is_ops_user,
}
use shard_lure.Actor.Playbook.Reporting.{handshake-vet}
use shard_lure.Tests.Gates.{small_net, public_text}

abbrev tried : List Bytes
tried = codes "root" ∷ codes "Admin" ∷ codes "k8s-ci" ∷ []

tried_label : classify_playbook tried 90 ≡ codes "default_credential_spray"
unfolding classify_playbook classify add_all add is_cn_user is_mostly_lower_alpha count_alpha
    is_default_user is_ops_user has_part to_lower eqb has_prefix
tried_label = refl

abbrev spray : Features
spray = record { users = 10; cn = 4; svc = 0; crypto = 0; admin = 1; k8s = 0 }

abbrev scanner : ReportCandidate
scanner = record {
  src_ip = public_text;
  playbook = codes "scanner_tool";
  probe_score = 100;
  event_count = 5000;
  unique_users = 40;
  last_seen = 100 * day;
}

scanner_label :
    codes "scanner_tool"
    ≡ classify_cowrie_playbook [] 300 (codes "SSH-2.0-libssh_0.9.6") false false false false
unfolding classify_cowrie_playbook cowrie_playbook has_part to_lower has_prefix
scanner_label = refl

handshake-vet_example : Abuseipdb.vet small_net scanner none 50 (101 * day) [] ≢ ok tt
handshake-vet_example =
    handshake-vet small_net scanner none 50 (101 * day) [] [] 300 (codes "SSH-2.0-libssh_0.9.6")
      scanner_label
