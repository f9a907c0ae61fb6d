-- ===== src/Script/Key/Wire.antt =====
-- Fields and integers come back as they were written.
use shard_lure.Common.{
  ℕ, ◌+◌, ◌*◌, ◌/◌, ◌%◌, ◌≤◌, ◌<◌, ◌≡◌, refl, ap, inl, inr, Bool, true, false, ◌&&◌, ◌||◌, not, [],
  ◌∷◌, ◌++◌, Bytes, ltb, leb, ◌==◌, length, length-append, Bool-cases, arith,
}
use shard_lure.Script.Key.{
  take, drop, uint32_bytes, WireReader, field_of, field, has_top_bit, starts_nonzero, strip_zeros,
  mpint, signed,
}

uint32_read :
    (n : ℕ)
    → n < 4294967296
    → ((n / 16777216 % 256 * 256 + n / 65536 % 256) * 256 + n / 256 % 256) * 256 + n % 256 ≡ n
uint32_read n h = omega (arith, h)

take-append : (f rest : Bytes) → take (length f) (f ++ rest) ≡ f
take-append [] rest = refl
take-append (c ∷ f) rest = ap (λ g. c ∷ g) (take-append f rest)

drop-append : (f rest : Bytes) → drop (length f) (f ++ rest) ≡ rest
drop-append [] rest = refl
drop-append (c ∷ f) rest = drop-append f rest

long_enough : (f rest : Bytes) → ltb (length (f ++ rest)) (length f) ≡ false
long_enough f rest = ground (arith, length-append f rest)

-- The bytes of one field.
abbrev pub field_bytes : Bytes → Bytes
field_bytes f = uint32_bytes (length f) ++ f

pub field-field_bytes :
    (f rest : Bytes)
    → length f < 4294967296
    → field (record { b = uint32_bytes (length f) ++ (f ++ rest); ok = true })
      ≡ (f, record { b = rest; ok = true })
unfolding field field_of uint32_bytes
field-field_bytes f rest h =
    rw (uint32_read (length f) h, long_enough f rest, take-append f rest, drop-append f rest) refl

-- What `mpint` answers: no leading zero, and at most 2048 bytes.
unfoldable pub is_magnitude : Bytes → Bool
is_magnitude [] = true
is_magnitude (c ∷ v) = not (c == 0) && leb (length (c ∷ v)) 2048

strip_shorter : (f : Bytes) → length (strip_zeros f) ≤ length f
strip_shorter [] = omega arith
strip_shorter (c ∷ f) = ground (arith, strip_shorter f)

strip-is_magnitude : (f : Bytes) → length f ≤ 2048 → is_magnitude (strip_zeros f) ≡ true
unfolding is_magnitude
strip-is_magnitude [] h = refl
strip-is_magnitude (c ∷ f) h = ground (arith, h, strip-is_magnitude f (omega (arith, h)))

-- A field that `mpint` refuses.
abbrev pub refuses : Bytes → Bool
refuses f = has_top_bit f || (ltb 2049 (length f) || length f == 2049 && starts_nonzero f)

taken-is_magnitude : (f : Bytes) → refuses f ≡ false → is_magnitude (strip_zeros f) ≡ true
unfolding is_magnitude
taken-is_magnitude [] h = refl
taken-is_magnitude (c ∷ f) h = elim (Bool-cases (c == 0)) [
  | inl zero_first ↦ rw zero_first (strip-is_magnitude f (ground (arith, h)))
  | inr other ↦ rw other (ground (arith, h, other))
]

pub mpint-is_magnitude : (r : WireReader) → (mpint r).1.ok ≡ true → is_magnitude (mpint r).0 ≡ true
unfolding mpint is_magnitude
mpint-is_magnitude r h =
    elim (Bool-cases (
      not (field r).1.ok
      || (has_top_bit (field r).0
          || (ltb 2049 (length (field r).0)
              || length (field r).0 == 2049 && starts_nonzero (field r).0)))) [
                | inl refused ↦ rw refused refl
                | inr taken ↦ rw taken (taken-is_magnitude (field r).0 (ground (arith, taken)))
              ]

signed_taken : (v : Bytes) → is_magnitude v ≡ true → refuses (signed v) ≡ false
unfolding is_magnitude
signed_taken [] h = refl
signed_taken (c ∷ v) h = ground (arith, h)

strip-signed : (v : Bytes) → is_magnitude v ≡ true → strip_zeros (signed v) ≡ v
unfolding is_magnitude
strip-signed [] h = refl
strip-signed (c ∷ v) h = ground (arith, h)

signed_short : (v : Bytes) → is_magnitude v ≡ true → length (signed v) < 4294967296
unfolding is_magnitude
signed_short [] h = omega arith
signed_short (c ∷ v) h = ground (arith, h)

-- An integer that is written is read again.
pub mpint-signed :
    (v rest : Bytes)
    → is_magnitude v ≡ true
    → mpint (record { b = uint32_bytes (length (signed v)) ++ (signed v ++ rest); ok = true })
      ≡ (v, record { b = rest; ok = true })
unfolding mpint
mpint-signed v rest h =
    rw (field-field_bytes (signed v) rest (signed_short v h), signed_taken v h, strip-signed v h)
      refl

taken_short : (f : Bytes) → refuses f ≡ false → length f < 4294967296
taken_short [] h = omega arith
taken_short (c ∷ f) h = ground (arith, h)

-- A field that `mpint` takes is read as its bytes without the leading zeros.
pub mpint-field_bytes :
    (f rest : Bytes)
    → refuses f ≡ false
    → mpint (record { b = uint32_bytes (length f) ++ (f ++ rest); ok = true })
      ≡ (strip_zeros f, record { b = rest; ok = true })
unfolding mpint
mpint-field_bytes f rest h = rw (field-field_bytes f rest (taken_short f h), h) refl
