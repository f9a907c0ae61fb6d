-- ===== src/Intel/Abuseipdb/Policy.antt =====
-- The policy that `Vet` of internal/intel/abuseipdb enforces.
use shard_lure.Common.{
  ℕ, ◌*◌, ◌+◌, ◌≤◌, ◌<◌, ◌≡◌, ◌≢◌, refl, ap, ◌∙◌, ◌↔◌, true, false, List, [], Option, none, some,
  Bytes, trim_space, ℤ, any, arith,
}
use shard_lure.Common.Time.{Time, day, longer_than-sub, max_duration}
use shard_lure.Common.Result.{ok, err}
use shard_lure.Netmatch.Ip.{Ip}
use shard_lure.Netmatch.Parse.{NetLib, IsNetLib}
use shard_lure.Netmatch.Public.{is_public_ip, is_public_ip-is_some}
use shard_lure.Netmatch.Matcher.{Set, new, has, has_ip}
use shard_lure.Netmatch.Matcher.Meaning.{matches, has_ip-new}
use shard_lure.Netmatch.Matcher.Textual.{has-new}
use shard_lure.Intel.Options.{window_days, window_days-le}
use shard_lure.Intel.Abuseipdb.{
  ReportCandidate, min_event_floor, min_user_floor, default_max_age_days, brute_playbook, dormant,
  vet,
}

-- What a reported attacker is: a public address that is none of the operator's, seen within the
-- window, and a confirmed brute-forcer.
pub record IsReportable (net : NetLib) (c : ReportCandidate) (admin : Option Set) (min_probe : ℕ)
    (now : Time) (days : ℕ) : Type 0 where
  pub public : is_public_ip (net.parse_ip (trim_space c.src_ip)) ≡ true
  pub not_admin : has net admin (trim_space c.src_ip) ≡ false
  pub dated : 0 < c.last_seen
  pub current : now ≤ c.last_seen + days * day
  pub brute_force : brute_playbook c.playbook ≡ true
  pub probed : min_probe ≤ c.probe_score
  pub busy : min_event_floor ≤ c.event_count
  pub broad : min_user_floor ≤ c.unique_users

has-none : (net : NetLib) (x : Bytes) → has net none x ≡ false
unfolding has
has-none net x = refl

module _ (net : NetLib) (c : ReportCandidate) (admin : Option Set) (min_probe : ℕ) (now : Time)
    (opts : List ℤ) where
  window_fits : window_days default_max_age_days opts * day < max_duration
  window_fits = omega (arith, window_days-le default_max_age_days opts)

  accepted :
      vet net c admin min_probe now opts ≡ ok tt
      → IsReportable net c admin min_probe now (window_days default_max_age_days opts)
  unfolding vet
  accepted h = ground (
    arith,
    longer_than-sub now c.last_seen (window_days default_max_age_days opts * day) window_fits,
    has-none net (trim_space c.src_ip),
  )

  reportable :
      IsReportable net c admin min_probe now (window_days default_max_age_days opts)
      → vet net c admin min_probe now opts ≡ ok tt
  unfolding vet
  reportable r = ground (
    arith,
    r,
    longer_than-sub now c.last_seen (window_days default_max_age_days opts * day) window_fits,
    is_public_ip-is_some (net.parse_ip (trim_space c.src_ip)) r.public,
  )

  -- A candidate is accepted exactly when it is reportable within the window that the options leave.
  pub vet-IsReportable :
      (vet net c admin min_probe now opts ≡ ok tt)
      ↔ IsReportable net c admin min_probe now (window_days default_max_age_days opts)
  unfolding vet
  vet-IsReportable = (accepted, reportable)

widen :
    {net : NetLib} {c : ReportCandidate} {admin : Option Set} {min_probe : ℕ} {now : Time}
    {days more : ℕ}
    → IsReportable net c admin min_probe now days
    → days ≤ more
    → IsReportable net c admin min_probe now more
widen r h = record {
  public = r.public;
  not_admin = r.not_admin;
  dated = r.dated;
  current = omega (arith, r.current);
  brute_force = r.brute_force;
  probed = r.probed;
  busy = r.busy;
  broad = r.broad;
}

dormant_old :
    (net : NetLib) (c : ReportCandidate) (admin : Option Set) (min_probe : ℕ) (now : Time)
    (opts : List ℤ) (age : ℤ)
    → vet net c admin min_probe now opts ≡ err (dormant age)
    → c.last_seen + window_days default_max_age_days opts * day < now
unfolding vet
dormant_old net c admin min_probe now opts age h = ground (
  arith,
  longer_than-sub now c.last_seen (window_days default_max_age_days opts * day)
      (window_fits net c admin min_probe now opts),
)

-- An option never admits what the default policy refuses: what is accepted with options is accepted
-- without them.
pub vet-tightens :
    (net : NetLib) (c : ReportCandidate) (admin : Option Set) (min_probe : ℕ) (now : Time)
    (opts : List ℤ)
    → vet net c admin min_probe now opts ≡ ok tt
    → vet net c admin min_probe now [] ≡ ok tt
unfolding window_days
vet-tightens net c admin min_probe now opts h =
    let r = (vet-IsReportable net c admin min_probe now opts).0 h in
    (vet-IsReportable net c admin min_probe now []).1
      (widen r (window_days-le default_max_age_days opts))

-- Whatever the other signals, an address that an entry of the admin configuration matches, in any
-- spelling or by a range, is never accepted.
pub vet-admin :
    (net : NetLib) (c : ReportCandidate) (entries : List Bytes) (min_probe : ℕ) (now : Time)
    (opts : List ℤ) (ip : Ip)
    → IsNetLib net
    → net.parse_ip (trim_space c.src_ip) ≡ some ip
    → any (matches net ip) entries ≡ true
    → vet net c (some (new net entries)) min_probe now opts ≢ ok tt
vet-admin net c entries min_probe now opts ip law p m h =
    let r = (vet-IsReportable net c (some (new net entries)) min_probe now opts).0 h in
    let found : has net (some (new net entries)) (trim_space c.src_ip) ≡ true =
      has-new net law entries (trim_space c.src_ip)
      ∙ ap (has_ip net (some (new net entries))) p
      ∙ has_ip-new net law ip (law.print_parse _ ip p) entries
      ∙ m in
    cc (r.not_admin, found)

-- A candidate that is out of its window stays out: once refused as dormant, it is refused at every
-- later time, under the same options, until it is seen again.
pub vet-dormant :
    (net : NetLib) (c : ReportCandidate) (admin : Option Set) (min_probe : ℕ) (now later : Time)
    (opts : List ℤ) (age : ℤ)
    → vet net c admin min_probe now opts ≡ err (dormant age)
    → now ≤ later
    → vet net c admin min_probe later opts ≢ ok tt
vet-dormant net c admin min_probe now later opts age h le h' =
    let r = (vet-IsReportable net c admin min_probe later opts).0 h' in
    omega (arith, r.current, dormant_old net c admin min_probe now opts age h)
