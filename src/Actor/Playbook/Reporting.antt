-- ===== src/Actor/Playbook/Reporting.antt =====
-- Which playbooks the AbuseIPDB gate accepts.
use shard_lure.Common.{
  ℕ, ◌*◌, ◌≡◌, ◌≢◌, inl, inr, refl, Bool, false, ◌&&◌, ◌||◌, not, List, any, Option, Bytes,
  has_suffix, to_lower, trim_space, ltb, leb, ◌==◌, ℤ, arith, Bool-cases,
}
use shard_lure.Common.Time.{Time}
use shard_lure.Common.Result.{ok}
use shard_lure.Netmatch.Parse.{NetLib}
use shard_lure.Netmatch.Matcher.{Set}
use shard_lure.Intel.Abuseipdb
use shard_lure.Intel.Abuseipdb.{ReportCandidate, brute_playbook}
use shard_lure.Intel.Abuseipdb.Policy.{vet-IsReportable}
use shard_lure.Actor.Playbook.{
  Features, classify, cowrie_playbook, classify_playbook, classify_cowrie_playbook, scanner_tools,
  has_part,
}

abbrev pub is_brute_force : Features → ℕ → Bool
is_brute_force f rate =
    not (f.users == 0)
    && ((leb 120 rate && ltb (3 * f.users) (10 * f.cn))
        || ((leb 2 f.svc && ltb rate 80)
            || (not (leb 2 f.crypto || (leb 1 f.crypto && leb (3 * f.users) (20 * f.crypto)))
                && (not (leb 2 f.k8s) && ((leb 2 f.admin && leb 40 rate) || leb 60 rate)))))

module _ (f : Features) (rate : ℕ) where
  -- The gate of AbuseIPDB and the classifier agree on the labels: a label passes as a brute-force
  -- playbook exactly when the features and the rate are those of a spray or of an enumeration.
  pub classify-brute_playbook : brute_playbook (classify f rate) ≡ is_brute_force f rate
  unfolding brute_playbook classify trim_space to_lower has_suffix
  classify-brute_playbook = ground arith

handshake_label :
    (corpus client : Bytes)
    → brute_playbook (cowrie_playbook corpus client false false false false) ≡ false
unfolding cowrie_playbook brute_playbook trim_space to_lower has_suffix
handshake_label corpus client = elim (Bool-cases (any (has_part (to_lower client)) scanner_tools)) [
  | inl tool ↦ rw tool refl
  | inr none ↦ rw none refl
]

-- An actor that only completed the handshake is never reported to AbuseIPDB, whatever user names,
-- rate and banner it shows and however high its score.
pub handshake-vet :
    (net : NetLib) (c : ReportCandidate) (admin : Option Set) (min_probe : ℕ) (now : Time)
    (opts : List ℤ) (usernames : List Bytes) (rate : ℕ) (client : Bytes)
    → c.playbook ≡ classify_cowrie_playbook usernames rate client false false false false
    → Abuseipdb.vet net c admin min_probe now opts ≢ ok tt
unfolding classify_cowrie_playbook
handshake-vet net c admin min_probe now opts usernames rate client e h =
    let r = (vet-IsReportable net c admin min_probe now opts).0 h in
    let label : brute_playbook c.playbook ≡ false =
      rw e (handshake_label (classify_playbook usernames rate) client) in
    cc (r.brute_force, label)
