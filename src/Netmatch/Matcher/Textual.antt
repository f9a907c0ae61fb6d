-- ===== src/Netmatch/Matcher/Textual.antt =====
-- The set is about addresses, not about their spelling; and `Invalid` names exactly the dead entries.
use shard_lure.Common.{
  is_nil, ◌≡◌, refl, inl, inr, Bool, true, false, List, [], ◌∷◌, Option, none, some, Bytes, eqb,
  eqb_refl, eq_of_eqb, has_key, contains_byte, trim_space, if◌then◌else◌, Bool-cases, Option-cases,
  length, ◌+◌, arith,
}
use shard_lure.Netmatch.Ip.{Ip, IpNet}
use shard_lure.Netmatch.Parse.{NetLib, IsNetLib}
use shard_lure.Netmatch.Matcher.{
  Set, add_entry, add_entries, new, is_invalid, invalid, has_ip, has, add_range, add_address,
}

module _ (net : NetLib) where
  has_parsed : List Bytes → Option Ip → Bool
  has_parsed exact none = false
  has_parsed exact (some ip) = has_key exact (net.ip_string ip)

  -- Every key parses to an address whose printed form is a key too.
  abbrev IsKeyed : List Bytes → Type 0
  IsKeyed exact = (x : Bytes) → has_key exact x ≡ true → has_parsed exact (net.parse_ip x) ≡ true

  module _ (law : IsNetLib net) where
    has_parsed_grow :
        (k e : Bytes) (exact : List Bytes) (o : Option Ip)
        → has_parsed exact o ≡ true
        → has_parsed (k ∷ e ∷ exact) o ≡ true
    unfolding has_parsed
    has_parsed_grow k e exact none h = cc
    has_parsed_grow k e exact (some ip) h = ground arith

    add_keys :
        (e : Bytes) (a : Ip) (exact : List Bytes)
        → net.parse_ip e ≡ some a
        → IsKeyed exact
        → IsKeyed (net.ip_string a ∷ e ∷ exact)
    add_keys e a exact p keyed x h = elim (Bool-cases (eqb x (net.ip_string a))) [
      | inl same ↦ rw (eq_of_eqb _ _ same, law.print_parse e a p) (unfold has_parsed in rw eqb_refl)
      | inr other ↦ elim (Bool-cases (eqb x e)) [
        | inl same ↦ rw (eq_of_eqb _ _ same, p) (unfold has_parsed in rw eqb_refl)
        | inr third ↦ has_parsed_grow _ e exact (net.parse_ip x) (keyed x (rw (other, third) at h))
      ]
    ]

    add_address-IsKeyed :
        (e : Bytes) (exact : List Bytes) (cidrs : List IpNet)
        → IsKeyed exact
        → IsKeyed (add_address net e (net.parse_ip e) exact cidrs).0
    add_address-IsKeyed e exact cidrs keyed = elim (Option-cases (net.parse_ip e)) [
      | inl p ↦ rw p (unfold add_address in keyed)
      | inr (a, p) ↦ rw p (unfold add_address in add_keys e a exact p keyed)
    ]

    add_range-IsKeyed :
        (e : Bytes) (exact : List Bytes) (cidrs : List IpNet)
        → IsKeyed exact
        → IsKeyed (add_range net e (net.parse_cidr e) exact cidrs).0
    add_range-IsKeyed e exact cidrs keyed = elim (Option-cases (net.parse_cidr e)) [
      | inl p ↦ rw p (unfold add_range in add_address-IsKeyed e exact cidrs keyed)
      | inr (a, p) ↦ rw p (unfold add_range in keyed)
    ]

    add_entry-IsKeyed :
        (raw : Bytes) (exact : List Bytes) (cidrs : List IpNet)
        → IsKeyed exact
        → IsKeyed (add_entry net raw exact cidrs).0
    unfolding add_entry
    add_entry-IsKeyed raw exact cidrs keyed = elim (Bool-cases (is_nil (trim_space raw))) [
      | inl p ↦ rw p keyed
      | inr p ↦ elim (Bool-cases (contains_byte (trim_space raw) b'/')) [
        | inl q ↦ rw (p, q) (add_range-IsKeyed (trim_space raw) exact cidrs keyed)
        | inr q ↦ rw (p, q) (add_address-IsKeyed (trim_space raw) exact cidrs keyed)
      ]
    ]

    add_entries-IsKeyed :
        (entries exact : List Bytes) (cidrs : List IpNet)
        → IsKeyed exact
        → IsKeyed (add_entries net entries exact cidrs).0
    unfolding add_entries
    add_entries-IsKeyed [] exact cidrs keyed = keyed
    add_entries-IsKeyed (raw ∷ entries) exact cidrs keyed =
        let r = add_entry net raw exact cidrs in
        add_entries-IsKeyed entries r.0 r.1 (add_entry-IsKeyed raw exact cidrs keyed)

    has-keyed :
        (s : Set) (x : Bytes)
        → IsKeyed s.exact
        → has net (some s) x ≡ has_ip net (some s) (net.parse_ip x)
    unfolding has has_ip has_parsed
    has-keyed s x keyed = ground (arith, keyed x)

    -- Looking a text up in a set built from entries is looking up the address that it spells: no
    -- spelling of an address is treated unlike another, and a text that spells none is never found.
    pub has-new :
        (entries : List Bytes) (x : Bytes)
        → has net (some (new net entries)) x ≡ has_ip net (some (new net entries)) (net.parse_ip x)
    unfolding new
    has-new entries x = has-keyed _ x (add_entries-IsKeyed entries [] [] (λ y h. cc))

-- The entries that pass the tests of `Invalid`.
pub valid_entries : NetLib → List Bytes → List Bytes
valid_entries net [] = []
valid_entries net (raw ∷ entries) =
    let rest = valid_entries net entries in if is_invalid net raw then rest else raw ∷ rest

module _ (net : NetLib) where
  invalid_adds_nothing :
      (raw : Bytes) (exact : List Bytes) (cidrs : List IpNet)
      → is_invalid net raw ≡ true
      → add_entry net raw exact cidrs ≡ (exact, cidrs)
  unfolding is_invalid add_entry
  invalid_adds_nothing raw exact cidrs h = ground arith

  add_entries-valid :
      (entries exact : List Bytes) (cidrs : List IpNet)
      → add_entries net (valid_entries net entries) exact cidrs
        ≡ add_entries net entries exact cidrs
  unfolding valid_entries add_entries
  add_entries-valid [] exact cidrs = refl
  add_entries-valid (raw ∷ entries) exact cidrs = elim (Bool-cases (is_invalid net raw)) [
    | inl bad ↦
        rw (bad, invalid_adds_nothing raw exact cidrs bad) (add_entries-valid entries exact cidrs)
    | inr good ↦
        rw good (let r = add_entry net raw exact cidrs in add_entries-valid entries r.0 r.1)
  ]

  -- What `Invalid` reports, and what it leaves.
  invalid_count :
      (entries : List Bytes)
      → length (invalid net entries) + length (valid_entries net entries) ≡ length entries
  unfolding invalid valid_entries
  invalid_count [] = refl
  invalid_count (raw ∷ entries) = ground (arith, invalid_count entries)

  -- Leaving out the entries that fail the tests of `Invalid` builds the same set, and `Invalid`
  -- reports as many entries as are left out.
  pub new-valid_entries :
      (entries : List Bytes)
      → (new net (valid_entries net entries) ≡ new net entries)
        × (length (invalid net entries) + length (valid_entries net entries) ≡ length entries)
  unfolding new
  new-valid_entries entries = (rw (add_entries-valid entries [] []), invalid_count entries)
