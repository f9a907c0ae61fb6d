-- ===== src/Tests/Gates.antt =====
-- internal/netmatch and internal/intel at concrete inputs.
use shard_lure.Common.{
  ◌≡◌, refl, false, not, ◌⊎◌, ◌==◌, List, [], ◌∷◌, Option, none, some, Bytes, codes, any, eqb,
  if◌then◌else◌, arith, inl, inr,
}
use shard_lure.Netmatch.Ip.{Ip, v4, IpNet, net4, quad}
use shard_lure.Netmatch.Parse.{NetLib, IsNetLib}
use shard_lure.Netmatch.Public.{is_public_ip}
use shard_lure.Netmatch.Public.Intervals.{inside, special_ipv4, is_public_ip-v4}
use shard_lure.Netmatch.Matcher.{new, has_ip}
use shard_lure.Netmatch.Matcher.Meaning.{matches, has_ip-new}

-- A library that knows two addresses and one range.
abbrev pub public_text : Bytes
public_text = codes "8.8.8.8"

abbrev pub private_text : Bytes
private_text = codes "10.0.0.1"

unfoldable pub print : Ip → Bytes
print (v4 n) =
    if n == quad 8 8 8 8 then public_text else if n == quad 10 0 0 1 then private_text else []
print _ = []

unfoldable pub read : Bytes → Option Ip
unfolding eqb
read s =
    if eqb s public_text
    then some (v4 (quad 8 8 8 8))
    else if eqb s private_text
    then some (v4 (quad 10 0 0 1))
    else none

unfoldable pub read_range : Bytes → Option IpNet
unfolding eqb
read_range s = if eqb s (codes "10.0.0.0/8") then some (net4 (quad 10 0 0 0) 8) else none

abbrev pub small_net : NetLib
small_net = record { parse_ip = read; parse_cidr = read_range; ip_string = print }

read_cases :
    (s : Bytes) (ip : Ip) → read s ≡ some ip → (ip ≡ v4 (quad 8 8 8 8)) ⊎ (ip ≡ v4 (quad 10 0 0 1))
unfolding read
read_cases s ip h = ground (arith, h)

small_net-print_parse : (s : Bytes) (ip : Ip) → read s ≡ some ip → read (print ip) ≡ some ip
unfolding print read eqb
small_net-print_parse s ip h = elim (read_cases s ip h) [ inl e ↦ rw e | inr e ↦ rw e ]

pub small_net-IsNetLib : IsNetLib small_net
small_net-IsNetLib = record { print_parse = small_net-print_parse }

is_public_ip-v4_example :
    is_public_ip (some (v4 (quad 172 32 0 1))) ≡ not (any (inside (quad 172 32 0 1)) special_ipv4)
is_public_ip-v4_example = is_public_ip-v4 (quad 172 32 0 1)

documentation_is_not_public : is_public_ip (some (v4 (quad 203 0 113 9))) ≡ false
unfolding is_public_ip
documentation_is_not_public = refl

abbrev pub admin_entries : List Bytes
admin_entries = codes " 10.0.0.0/8" ∷ codes "8.8.8.8" ∷ codes "nonsense" ∷ []

has_ip-new_example :
    has_ip small_net (some (new small_net admin_entries)) (some (v4 (quad 10 0 0 1)))
    ≡ any (matches small_net (v4 (quad 10 0 0 1))) admin_entries
unfolding print read eqb
has_ip-new_example = has_ip-new small_net small_net-IsNetLib (v4 (quad 10 0 0 1)) refl admin_entries
