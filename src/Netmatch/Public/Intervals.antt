-- ===== src/Netmatch/Public/Intervals.antt =====
-- What `IsPublicIP` accepts, as intervals of addresses written independently of the prefixes.
use shard_lure.Common.{
  ℕ, ◌+◌, ◌-◌, ◌*◌, ◌/◌, ◌^◌, ◌<◌, ◌≡◌, Bool, true, false, ◌&&◌, not, Bool-cases, inl, inr, List,
  [], ◌∷◌, some, any, map, refl, ap, leb, ◌==◌, arith, All,
}
use native.Mathlib.Nat.{one-le-pow, le-div_iff_mul-le, div-lt_iff_lt-mul}
use native.Mathlib.Numerals.{add-one}
use shard_lure.Netmatch.Ip.{v4, v6, IpNet, net4, net6, quad, groups, contains, is_global_unicast}
use shard_lure.Netmatch.Public.{
  is_public_ip, in_any_range, non_public_ipv4_ranges, non_public_ipv6_ranges,
}

-- The interval from `a` to `b`.
pub record Interval : Type 0 where
  pub first : ℕ
  pub last : ℕ

abbrev pub from_to : ℕ → ℕ → Interval
from_to a b = record { first = a; last = b }

-- The special-use blocks of IPv4, first and last address.
abbrev pub special_ipv4 : List Interval
special_ipv4 =
    from_to (quad 0 0 0 0) (quad 0 255 255 255)
    ∷ from_to (quad 10 0 0 0) (quad 10 255 255 255)
    ∷ from_to (quad 100 64 0 0) (quad 100 127 255 255)
    ∷ from_to (quad 127 0 0 0) (quad 127 255 255 255)
    ∷ from_to (quad 169 254 0 0) (quad 169 254 255 255)
    ∷ from_to (quad 172 16 0 0) (quad 172 31 255 255)
    ∷ from_to (quad 192 0 0 0) (quad 192 0 0 255)
    ∷ from_to (quad 192 0 2 0) (quad 192 0 2 255)
    ∷ from_to (quad 192 31 196 0) (quad 192 31 196 255)
    ∷ from_to (quad 192 52 193 0) (quad 192 52 193 255)
    ∷ from_to (quad 192 88 99 0) (quad 192 88 99 255)
    ∷ from_to (quad 192 168 0 0) (quad 192 168 255 255)
    ∷ from_to (quad 192 175 48 0) (quad 192 175 48 255)
    ∷ from_to (quad 198 18 0 0) (quad 198 19 255 255)
    ∷ from_to (quad 198 51 100 0) (quad 198 51 100 255)
    ∷ from_to (quad 203 0 113 0) (quad 203 0 113 255)
    ∷ from_to (quad 224 0 0 0) (quad 239 255 255 255)
    ∷ from_to (quad 240 0 0 0) (quad 255 255 255 255)
    ∷ []

-- The special-use blocks of IPv6.
abbrev pub special_ipv6 : List Interval
special_ipv6 =
    from_to 0 0
    ∷ from_to 1 1
    ∷ from_to (groups 0x64 0xff9b 0 0) (groups 0x64 0xff9b 0 0 + 2 ^ 32 - 1)
    ∷ from_to (groups 0x64 0xff9b 1 0) (groups 0x64 0xff9b 2 0 - 1)
    ∷ from_to (groups 0x100 0 0 0) (groups 0x100 0 0 1 - 1)
    ∷ from_to (groups 0x100 0 0 1) (groups 0x100 0 0 2 - 1)
    ∷ from_to (groups 0x2001 0 0 0) (groups 0x2001 0x200 0 0 - 1)
    ∷ from_to (groups 0x2001 0xdb8 0 0) (groups 0x2001 0xdb9 0 0 - 1)
    ∷ from_to (groups 0x2002 0 0 0) (groups 0x2003 0 0 0 - 1)
    ∷ from_to (groups 0x2620 0x4f 0x8000 0) (groups 0x2620 0x4f 0x8001 0 - 1)
    ∷ from_to (groups 0x3fff 0 0 0) (groups 0x3fff 0x1000 0 0 - 1)
    ∷ from_to (groups 0x5f00 0 0 0) (groups 0x5f01 0 0 0 - 1)
    ∷ from_to (groups 0xfc00 0 0 0) (groups 0xfe00 0 0 0 - 1)
    ∷ from_to (groups 0xfe80 0 0 0) (groups 0xfec0 0 0 0 - 1)
    ∷ from_to (groups 0xff00 0 0 0) (2 ^ 128 - 1)
    ∷ []

abbrev pub inside : ℕ → Interval → Bool
inside n i = leb i.first n && leb n i.last

-- The addresses with the prefix `q`, of `k` addresses each, are an interval.
in_prefix : (n q k : ℕ) → 0 < k → (n / k == q) ≡ (leb (q * k) n && leb n (q * k + (k - 1)))
in_prefix n q k h = ground (
  arith,
  le-div_iff_mul-le {k = k} {x = q} {y = n} h,
  div-lt_iff_lt-mul {k = k} {x = n} {y = q + 1} h,
  ap (λ (t : ℕ). t * k) (add-one q),
)

abbrev covered : IpNet → Interval
covered (net4 base ones) =
    let k = 2 ^ (32 - ones) in let low = base / k * k in from_to low (low + (k - 1))
covered (net6 base ones) =
    let k = 2 ^ (128 - ones) in let low = base / k * k in from_to low (low + (k - 1))

Is4 : IpNet → Type 0
Is4 (net4 base ones) = Unit
Is4 (net6 base ones) = ⊥

Is6 : IpNet → Type 0
Is6 (net4 base ones) = ⊥
Is6 (net6 base ones) = Unit

contains4-inside : (r : IpNet) (n : ℕ) → Is4 r → contains r (v4 n) ≡ inside n (covered r)
unfolding contains Is4
contains4-inside (net4 base ones) n h =
    in_prefix n _ (2 ^ (32 - ones)) (one-le-pow _ 2 (omega arith))
contains4-inside (net6 base ones) n h = absurd h

contains6-inside : (r : IpNet) (n : ℕ) → Is6 r → contains r (v6 n) ≡ inside n (covered r)
unfolding contains Is6
contains6-inside (net4 base ones) n h = absurd h
contains6-inside (net6 base ones) n h =
    in_prefix n _ (2 ^ (128 - ones)) (one-le-pow _ 2 (omega arith))

any4 :
    (rs : List IpNet) (n : ℕ)
    → All Is4 rs
    → in_any_range (v4 n) rs ≡ any (inside n) (map covered rs)
unfolding in_any_range
any4 [] n h = refl
any4 (r ∷ rs) n h = rw (contains4-inside r n h.0, any4 rs n h.1)

any6 :
    (rs : List IpNet) (n : ℕ)
    → All Is6 rs
    → in_any_range (v6 n) rs ≡ any (inside n) (map covered rs)
unfolding in_any_range
any6 [] n h = refl
any6 (r ∷ rs) n h = rw (contains6-inside r n h.0, any6 rs n h.1)

in_ranges4 : (n : ℕ) → in_any_range (v4 n) non_public_ipv4_ranges ≡ any (inside n) special_ipv4
unfolding Is4
in_ranges4 n = any4 non_public_ipv4_ranges n (omega arith)

in_ranges6 : (n : ℕ) → in_any_range (v6 n) non_public_ipv6_ranges ≡ any (inside n) special_ipv6
unfolding Is6
in_ranges6 n = any6 non_public_ipv6_ranges n (omega arith)

unicast4 : (n : ℕ) → is_global_unicast (v4 n) ≡ false → any (inside n) special_ipv4 ≡ true
unfolding is_global_unicast
unicast4 n h = ground arith

unicast6 :
    (n : ℕ) → is_global_unicast (v6 n) ≡ false → n < 2 ^ 128 → any (inside n) special_ipv6 ≡ true
unfolding is_global_unicast
unicast6 n h b = ground arith

-- An IPv4 address is public exactly when it lies in none of the 18 special-use blocks, given by
-- their first and last addresses: the library's test of global unicast removes nothing more.
pub is_public_ip-v4 : (n : ℕ) → is_public_ip (some (v4 n)) ≡ not (any (inside n) special_ipv4)
unfolding is_public_ip
is_public_ip-v4 n = elim (Bool-cases (is_global_unicast (v4 n))) [
  | inl g ↦ rw (g, in_ranges4 n)
  | inr g ↦ rw (g, unicast4 n g)
]

-- An IPv6 address that is not an IPv4-mapped one is public exactly when it lies in none of the 15
-- special-use blocks of IPv6.
pub is_public_ip-v6 :
    (n : ℕ) → n < 2 ^ 128 → is_public_ip (some (v6 n)) ≡ not (any (inside n) special_ipv6)
unfolding is_public_ip
is_public_ip-v6 n b = elim (Bool-cases (is_global_unicast (v6 n))) [
  | inl g ↦ rw (g, in_ranges6 n)
  | inr g ↦ rw (g, unicast6 n g b)
]
