-- ===== src/Netmatch/Matcher.antt =====
-- internal/netmatch/netmatch.go: the set of admin or trusted addresses, built from entries that are
-- bare addresses or CIDR ranges. The map `exact` is the list of its keys.
pub mod Meaning
pub mod Textual
use shard_lure.Common.{
  is_nil, Bool, true, false, ◌&&◌, ◌||◌, not, is_some, List, [], ◌∷◌, ◌++◌, Option, none, some, any,
  Bytes, eqb, has_key, contains_byte, trim_space, if◌then◌else◌,
}
use shard_lure.Netmatch.Ip.{Ip, IpNet, contains}
use shard_lure.Netmatch.Parse.{NetLib}

pub record Set : Type 0 where
  pub exact : List Bytes
  pub cidrs : List IpNet
  pub empty : Bool

module _ (net : NetLib) where
  -- The second half of the loop of `New`: the entry as a bare address.
  add_address : Bytes → Option Ip → List Bytes → List IpNet → List Bytes × List IpNet
  add_address e none exact cidrs = (exact, cidrs)
  add_address e (some ip) exact cidrs = (net.ip_string ip ∷ e ∷ exact, cidrs)

  add_range : Bytes → Option IpNet → List Bytes → List IpNet → List Bytes × List IpNet
  unfolding add_address
  add_range e (some ipnet) exact cidrs = (exact, cidrs ++ ipnet ∷ [])
  add_range e none exact cidrs = add_address e (net.parse_ip e) exact cidrs

  -- One round of the loop of `New`.
  unfoldable pub add_entry : Bytes → List Bytes → List IpNet → List Bytes × List IpNet
  unfolding add_address add_range
  add_entry raw exact cidrs =
      let e = trim_space raw in
      if is_nil e
      then (exact, cidrs)
      else if contains_byte e b'/'
      then add_range e (net.parse_cidr e) exact cidrs
      else add_address e (net.parse_ip e) exact cidrs

  unfoldable pub add_entries : List Bytes → List Bytes → List IpNet → List Bytes × List IpNet
  add_entries [] exact cidrs = (exact, cidrs)
  add_entries (raw ∷ entries) exact cidrs =
      let (exact', cidrs') = add_entry raw exact cidrs in add_entries entries exact' cidrs'

  -- `New`
  unfoldable pub new : List Bytes → Set
  unfolding add_entries add_entry
  new entries =
      let (exact, cidrs) = add_entries entries [] [] in
      record { exact = exact; cidrs = cidrs; empty = is_nil exact && is_nil cidrs }

  -- The tests of one round of `Invalid`: nothing the set could use.
  unfoldable pub is_invalid : Bytes → Bool
  is_invalid raw =
      let e = trim_space raw in
      if is_nil e
      then false
      else if contains_byte e b'/' && is_some (net.parse_cidr e)
      then false
      else not (is_some (net.parse_ip e))

  -- `Invalid`
  unfoldable pub invalid : List Bytes → List Bytes
  unfolding is_invalid
  invalid [] = []
  invalid (raw ∷ entries) =
      let bad = invalid entries in if is_invalid raw then trim_space raw ∷ bad else bad

  -- `(*Set).HasIP`; `none` is the nil set, the nil address.
  unfoldable pub has_ip : Option Set → Option Ip → Bool
  unfolding contains
  has_ip none ip = false
  has_ip (some s) none = false
  has_ip (some s) (some ip) =
      if s.empty
      then false
      else if has_key s.exact (net.ip_string ip)
      then true
      else any (λ n. contains n ip) s.cidrs

  -- `(*Set).Has`
  unfoldable pub has : Option Set → Bytes → Bool
  unfolding has_ip
  has none ip = false
  has (some s) ip =
      if s.empty
      then false
      else if has_key s.exact ip
      then true
      else has_ip (some s) (net.parse_ip ip)
