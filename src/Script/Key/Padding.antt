-- ===== src/Script/Key/Padding.antt =====
-- Keys whose integers carry superfluous zeros.
use mathlib.Core.List.{append-nil, append_assoc}
use shard_lure.Common.{
  ◌≡◌, refl, sym, false, [], ◌++◌, some, Bool, Bytes, codes, eqb, length, subst, arith,
}
use shard_lure.Script.Key.{
  uint32_bytes, append_field, rsa_size, strip_zeros, signed, append_ints, read_key, written,
  canonical_key,
}
use shard_lure.Script.Key.Wire.{field-field_bytes, refuses, mpint-field_bytes}
use mathlib.Core.Bool.{true}

abbrev pub rsa : Bytes
rsa = codes "ssh-rsa"

-- An RSA key however its integers are padded.
unfoldable pub rsa_blob : Bytes → Bytes → Bytes
rsa_blob e n = append_field (append_field (append_field [] rsa) e) n

rsa_flat :
    (e n : Bytes)
    → rsa_blob e n
      ≡ uint32_bytes (length rsa)
        ++ (rsa ++ (uint32_bytes (length e) ++ (e ++ (uint32_bytes (length n) ++ (n ++ [])))))
unfolding rsa_blob append_field uint32_bytes
rsa_flat e n = rw (append-nil n, append_assoc e (uint32_bytes (length n)) n) refl

-- The fingerprint of an RSA key does not depend on how its integers are padded: a key whose exponent
-- and modulus are within the limits of OpenSSH has as its canonical form the key of the two integers
-- without their leading zeros, each with the one sign byte that it may need.
pub canonical_key-rsa :
    (on_curve : Bytes → Bytes → Bool) (e n : Bytes)
    → refuses e ≡ false
    → refuses n ≡ false
    → rsa_size (strip_zeros n) ≡ true
    → canonical_key on_curve rsa (rsa_blob e n)
      ≡ some (rsa_blob (signed (strip_zeros e)) (signed (strip_zeros n)))
unfolding canonical_key read_key written append_ints rsa_blob eqb
canonical_key-rsa on_curve e n he hn size =
    subst
      (λ b.
        canonical_key on_curve rsa b
        ≡ some (rsa_blob (signed (strip_zeros e)) (signed (strip_zeros n))))
      (sym (rsa_flat e n))
      (rw
        (
          field-field_bytes rsa
              (uint32_bytes (length e) ++ (e ++ (uint32_bytes (length n) ++ (n ++ []))))
              (omega arith),
          mpint-field_bytes e (uint32_bytes (length n) ++ (n ++ [])) he,
          mpint-field_bytes n [] hn,
          size,
        )
        refl)
