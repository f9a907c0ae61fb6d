-- ===== src/Intel/Host.antt =====
-- internal/intel/intelutil/host.go: which hosts may be published.
pub mod Numbers
pub mod Published
use shard_lure.Common.{
  ℕ, String, is_nil, Bool, true, false, ◌&&◌, ◌||◌, not, List, [], ◌∷◌, Option, none, some, map,
  any, all, length, Bytes, codes, eqb, has_key, has_prefix, has_suffix, trim_prefix, trim_suffix,
  to_lower, contains_byte, split, is_some, ltb, leb, if◌then◌else◌,
}
use shard_lure.Common.Result.{Result, ok, err}
use shard_lure.Netmatch.Parse.{NetLib}
use shard_lure.Netmatch.Public.{is_public_ip}

abbrev pub shortener_hosts : List Bytes
shortener_hosts = map codes (
    "bit.ly" ∷ "tinyurl.com" ∷ "goo.gl" ∷ "t.co" ∷ "ow.ly" ∷ "is.gd" ∷ "buff.ly" ∷ "cutt.ly"
    ∷ "rb.gy" ∷ "shorturl.at" ∷ "rebrand.ly" ∷ "t.ly" ∷ "tiny.cc" ∷ "s.id" ∷ "shorte.st" ∷ "adf.ly"
    ∷ [])

unfoldable pub is_shortener : Bytes → Bool
unfolding trim_prefix to_lower eqb
is_shortener host = has_key shortener_hosts (to_lower (trim_prefix host (codes "www.")))

abbrev pub is_dec : ℕ → Bool
is_dec r = leb b'0' r && leb r b'9'

abbrev pub is_hex_letter : ℕ → Bool
is_hex_letter r = (leb b'a' r && leb r b'f') || (leb b'A' r && leb r b'F')

-- One round of the loop of `IsNumericHost`: a decimal label, or `0x` and hexadecimal digits.
unfoldable pub is_numeric_label : Bytes → Bool
unfolding has_prefix
is_numeric_label [] = false
is_numeric_label (c ∷ []) = is_dec c
is_numeric_label (c ∷ d ∷ s) =
    if has_prefix (c ∷ d ∷ s) (codes "0x")
    then (if is_nil s then false else all (λ r. is_dec r || is_hex_letter r) s)
    else all is_dec (c ∷ d ∷ s)

unfoldable pub is_numeric_host : Bytes → Bool
unfolding is_numeric_label split
is_numeric_host [] = false
is_numeric_host (c ∷ s) = all is_numeric_label (split (c ∷ s) b'.')

abbrev pub private_suffixes : List Bytes
private_suffixes = map codes (
    ".local" ∷ ".internal" ∷ ".localdomain" ∷ ".lan" ∷ ".home" ∷ ".corp" ∷ ".test" ∷ ".invalid"
    ∷ ".example" ∷ ".onion" ∷ [])

unfoldable pub is_submittable_hostname : Bytes → Bool
unfolding to_lower trim_suffix has_suffix eqb
is_submittable_hostname host =
    let h = to_lower (trim_suffix host b'.') in
    if is_nil h || eqb h (codes "localhost")
    then false
    else if not (contains_byte h b'.')
    then false
    else not (any (has_suffix h) private_suffixes)

pub data HostKind : Type 0 where
  ip domain : HostKind

pub data HostReason : Type 0 where
  private_address numeric_host non_public_hostname too_long shortener : HostReason

-- The cases of `PublicHostKind` behind the test for an address.
unfoldable pub host_name_kind : Bytes → Result HostReason HostKind
host_name_kind host =
    if is_numeric_host host
    then err numeric_host
    else if not (is_submittable_hostname host)
    then err non_public_hostname
    else if ltb 253 (length host)
    then err too_long
    else if is_shortener host
    then err shortener
    else ok domain

unfoldable pub public_host_kind : NetLib → Bytes → Result HostReason HostKind
public_host_kind net host =
    if is_some (net.parse_ip host)
    then (if not (is_public_ip (net.parse_ip host)) then err private_address else ok ip)
    else host_name_kind host

unfoldable pub host_normalise : Bytes → Bytes
unfolding trim_suffix to_lower
host_normalise host = trim_suffix (to_lower host) b'.'
