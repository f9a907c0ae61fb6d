-- ===== src/Intel/Host/Numbers.antt =====
-- The hosts that `IsNumericHost` of internal/intel/intelutil/host.go is meant to catch.
use shard_lure.Common.{
  ℕ, ◌≡◌, refl, Bool, true, ◌&&◌, ◌||◌, not, [], ◌∷◌, ◌++◌, Bytes, all, split, split_one,
  split_more, has_prefix, leb, ◌==◌, arith,
}
use shard_lure.Intel.Host.{is_numeric_label, is_numeric_host}

abbrev pub is_digit : ℕ → Bool
is_digit c = leb 48 c && leb c 57

abbrev pub is_hex_digit : ℕ → Bool
is_hex_digit c = is_digit c || ((leb 97 c && leb c 102) || (leb 65 c && leb c 70))

-- A number as the address parsers of the C libraries read it: decimal, or hexadecimal behind `0x`.
pub data Number : Bytes → Type 0 where
  decimal : {p : Bytes} (c : ℕ) → all is_digit (c ∷ p) ≡ true → Number (c ∷ p)
  hexadecimal : {p : Bytes} (c : ℕ) → all is_hex_digit (c ∷ p) ≡ true → Number (48 ∷ 120 ∷ c ∷ p)

-- Numbers with dots between them, such as 127.1 and 0x7f000001.
pub data DottedNumbers : Bytes → Type 0 where
  only : {p : Bytes} → Number p → DottedNumbers p
  dotted : {p s : Bytes} → Number p → DottedNumbers s → DottedNumbers (p ++ 46 ∷ s)

decimal_label : (c : ℕ) (p : Bytes) → all is_digit (c ∷ p) ≡ true → is_numeric_label (c ∷ p) ≡ true
unfolding is_numeric_label has_prefix
decimal_label c [] h = ground (arith, h)
decimal_label c (d ∷ p) h = ground (arith, h)

Number-is_numeric_label : {p : Bytes} → Number p → is_numeric_label p ≡ true
unfolding is_numeric_label has_prefix
Number-is_numeric_label (decimal {p} c h) = decimal_label c p h
Number-is_numeric_label (hexadecimal {p} c h) = ground (arith, h)

abbrev is_undotted : Bytes → Bool
is_undotted p = all (λ c. not (c == 46)) p

digits-is_undotted : (p : Bytes) → all is_hex_digit p ≡ true → is_undotted p ≡ true
digits-is_undotted [] h = refl
digits-is_undotted (c ∷ p) h = ground (arith, h, digits-is_undotted p)

decimal_undotted : (p : Bytes) → all is_digit p ≡ true → is_undotted p ≡ true
decimal_undotted [] h = refl
decimal_undotted (c ∷ p) h = ground (arith, h, decimal_undotted p)

Number-is_undotted : {p : Bytes} → Number p → is_undotted p ≡ true
Number-is_undotted (decimal {p} c h) = decimal_undotted (c ∷ p) h
Number-is_undotted (hexadecimal {p} c h) = ground (arith, digits-is_undotted (c ∷ p) h)

labels : {h : Bytes} → DottedNumbers h → all is_numeric_label (split h 46) ≡ true
labels (only {p} n) =
    rw (split_one p 46 (Number-is_undotted n)) (ground (arith, Number-is_numeric_label n))
labels (dotted {p} {s} n d) =
    rw (split_more p s 46 (Number-is_undotted n))
      (ground (arith, Number-is_numeric_label n, labels d))

-- Numbers between dots are a numeric host.
pub DottedNumbers-is_numeric_host : (h : Bytes) → DottedNumbers h → is_numeric_host h ≡ true
unfolding is_numeric_host is_numeric_label
DottedNumbers-is_numeric_host [] d = labels d
DottedNumbers-is_numeric_host (c ∷ h) d = labels d
