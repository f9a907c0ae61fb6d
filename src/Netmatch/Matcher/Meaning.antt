-- ===== src/Netmatch/Matcher/Meaning.antt =====
-- What a set of entries matches: an address of one of the entries, or a member of one of the ranges.
use shard_lure.Common.{
  is_nil, ◌≡◌, refl, sym, ap, ◌==◌, ◌∙◌, inl, inr, Bool, true, false, ◌&&◌, ◌||◌, List, [], ◌∷◌,
  Option, none, some, any, Bytes, eqb, eqb_refl, eqb_ne, has_key, contains_byte, trim_space,
  if◌then◌else◌, Bool-cases, Option-cases, any-append, arith,
}
use shard_lure.Netmatch.Ip.{Ip, v4, v6, malformed, IpNet, contains}
use shard_lure.Netmatch.Parse.{NetLib, IsNetLib}
use shard_lure.Netmatch.Matcher.{add_entry, add_entries, new, has_ip, add_range, add_address}

pub eq_ip : Ip → Ip → Bool
eq_ip (v4 a) (v4 b) = a == b
eq_ip (v6 a) (v6 b) = a == b
eq_ip malformed malformed = true
eq_ip _ _ = false

eq_ip_refl : (a : Ip) → eq_ip a a ≡ true
unfolding eq_ip
eq_ip_refl (v4 a) = ground arith
eq_ip_refl (v6 a) = ground arith
eq_ip_refl malformed = refl

eq_of_eq_ip : (a b : Ip) → eq_ip a b ≡ true → a ≡ b
unfolding eq_ip
eq_of_eq_ip (v4 a) (v4 b) h = ground arith
eq_of_eq_ip (v6 a) (v6 b) h = ground arith
eq_of_eq_ip malformed malformed h = refl
eq_of_eq_ip _ _ h = cc

pub is_address : Ip → Option Ip → Bool
is_address ip none = false
is_address ip (some a) = eq_ip a ip

pub in_range : Ip → Option IpNet → Bool → Bool
in_range ip none otherwise = otherwise
in_range ip (some n) otherwise = contains n ip

-- The address is the one that the entry spells, or lies in the range that the entry spells.
unfoldable pub matches : NetLib → Ip → Bytes → Bool
unfolding is_address in_range
matches net ip raw =
    let e = trim_space raw in
    if is_nil e
    then false
    else if contains_byte e b'/'
    then in_range ip (net.parse_cidr e) (is_address ip (net.parse_ip e))
    else is_address ip (net.parse_ip e)

module _ (net : NetLib) where
  hit : Ip → List Bytes → List IpNet → Bool
  hit ip exact cidrs = has_key exact (net.ip_string ip) || any (λ n. contains n ip) cidrs

  has_ip-hit :
      (exact : List Bytes) (cidrs : List IpNet) (ip : Ip)
      → has_ip net
          (some (record { exact = exact; cidrs = cidrs; empty = is_nil exact && is_nil cidrs }))
          (some ip)
        ≡ hit ip exact cidrs
  unfolding has_ip hit
  has_ip-hit [] [] ip = refl
  has_ip-hit [] (n ∷ ns) ip = refl
  has_ip-hit (k ∷ ks) cidrs ip = ground arith

module _ (net : NetLib) (law : IsNetLib net) (ip : Ip)
    (printed : net.parse_ip (net.ip_string ip) ≡ some ip) where
  not_printed :
      (a : Ip) (e : Bytes) → net.parse_ip e ≡ some a → eq_ip a ip ≡ false → ¬ (net.ip_string ip ≡ e)
  not_printed a e h other same =
      let one : some ip ≡ some a = sym printed ∙ ap net.parse_ip same ∙ h in
      cc (one, other, eq_ip_refl ip)

  address_keys :
      (e : Bytes) (a : Ip)
      → net.parse_ip e ≡ some a
      → (eqb (net.ip_string ip) (net.ip_string a) || eqb (net.ip_string ip) e) ≡ eq_ip a ip
  address_keys e a h = elim (Bool-cases (eq_ip a ip)) [
    | inl same ↦ rw (same, eq_of_eq_ip a ip same, eqb_refl)
    | inr other ↦ rw (
      other,
      eqb_ne _ _ (not_printed a (net.ip_string a) (law.print_parse e a h) other),
      eqb_ne _ _ (not_printed a e h other),
    )
  ]

  hit-add_address :
      (e : Bytes) (exact : List Bytes) (cidrs : List IpNet)
      → (let r = add_address net e (net.parse_ip e) exact cidrs in hit net ip r.0 r.1)
        ≡ (hit net ip exact cidrs || is_address ip (net.parse_ip e))
  unfolding add_address hit is_address
  hit-add_address e exact cidrs = elim (Option-cases (net.parse_ip e)) [
    | inl p ↦ rw p (ground arith)
    | inr (a, p) ↦ rw p (ground (arith, address_keys e a p))
  ]

  hit-add_range :
      (e : Bytes) (exact : List Bytes) (cidrs : List IpNet)
      → (let r = add_range net e (net.parse_cidr e) exact cidrs in hit net ip r.0 r.1) ≡ (
          hit net ip exact cidrs || in_range ip (net.parse_cidr e) (is_address ip (net.parse_ip e)))
  unfolding add_range in_range
  hit-add_range e exact cidrs = elim (Option-cases (net.parse_cidr e)) [
    | inl p ↦ rw p (hit-add_address e exact cidrs)
    | inr (n, p) ↦
        rw p (unfold hit in ground (arith, any-append (λ n. contains n ip) cidrs (n ∷ [])))
  ]

  hit-add_entry :
      (raw : Bytes) (exact : List Bytes) (cidrs : List IpNet)
      → (let r = add_entry net raw exact cidrs in hit net ip r.0 r.1)
        ≡ (hit net ip exact cidrs || matches net ip raw)
  unfolding add_entry matches
  hit-add_entry raw exact cidrs = ground (
    arith,
    hit-add_range (trim_space raw) exact cidrs,
    hit-add_address (trim_space raw) exact cidrs,
  )

  hit-add_entries :
      (entries exact : List Bytes) (cidrs : List IpNet)
      → (let r = add_entries net entries exact cidrs in hit net ip r.0 r.1)
        ≡ (hit net ip exact cidrs || any (matches net ip) entries)
  unfolding add_entries
  hit-add_entries [] exact cidrs = ground arith
  hit-add_entries (raw ∷ entries) exact cidrs =
      let r = add_entry net raw exact cidrs in
      ground (arith, hit-add_entries entries r.0 r.1, hit-add_entry raw exact cidrs)

  -- A set built from entries has a parsed address exactly when some entry spells that address or a
  -- range that holds it, whatever the textual form of the entry.
  pub has_ip-new :
      (entries : List Bytes)
      → has_ip net (some (new net entries)) (some ip) ≡ any (matches net ip) entries
  unfolding new
  has_ip-new entries =
      let r = add_entries net entries [] [] in
      has_ip-hit net r.0 r.1 ip ∙ (unfold hit in hit-add_entries entries [] [])
