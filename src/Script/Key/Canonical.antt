-- ===== src/Script/Key/Canonical.antt =====
-- `canonicalKey` is a normal form.
use shard_lure.Common.{
  ◌<◌, ◌≡◌, ◌⊎◌, refl, sym, ◌∙◌, inl, inr, Bool, true, false, List, [], ◌∷◌, ◌++◌, Option, none,
  some, Bytes, codes, eqb, eqb_refl, eq_of_eqb, length, Bool-cases, subst, false≢true, arith,
}
use mathlib.Core.List.{append-nil, append_assoc}
use shard_lure.Script.Key.{
  uint32_bytes, append_field, WireReader, field, mpint, rsa_size, signed, append_ints, read_key,
  written, canonical_key,
}
use shard_lure.Script.Key.Wire.{field-field_bytes, is_magnitude, mpint-is_magnitude, mpint-signed}

-- The fields of integers, one after the other.
unfoldable ints_bytes : List Bytes → Bytes
ints_bytes [] = []
ints_bytes (v ∷ ints) = uint32_bytes (length (signed v)) ++ (signed v ++ ints_bytes ints)

abbrev at_end : WireReader
at_end = record { b = []; ok = true }

abbrev reader : Bytes → WireReader
reader b = record { b = b; ok = true }

mpint_ok : (r : WireReader) → (mpint r).1.ok ≡ true → r.ok ≡ true
unfolding mpint field
mpint_ok r = elim (Bool-cases r.ok) [ inl k ↦ λ h. k | inr k ↦ rw k (λ h. h) ]

mpint_ints :
    (v : Bytes) (ints : List Bytes)
    → is_magnitude v ≡ true
    → mpint (reader (ints_bytes (v ∷ ints))) ≡ (v, reader (ints_bytes ints))
unfolding ints_bytes
mpint_ints v ints h = mpint-signed v (ints_bytes ints) h

append_ints_flat : (out : Bytes) (ints : List Bytes) → append_ints out ints ≡ out ++ ints_bytes ints
unfolding append_ints ints_bytes append_field
append_ints_flat out [] = sym (append-nil out)
append_ints_flat out (v ∷ ints) =
    append_ints_flat (append_field out (signed v)) ints
    ∙ (append_assoc (out ++ uint32_bytes (length (signed v))) (signed v) (ints_bytes ints)
        ∙ append_assoc out (uint32_bytes (length (signed v))) (signed v ++ ints_bytes ints))

ints_flat :
    (typ : Bytes) (ints : List Bytes)
    → append_ints (append_field [] typ) ints ≡ uint32_bytes (length typ) ++ (typ ++ ints_bytes ints)
unfolding append_field
ints_flat typ ints =
    append_ints_flat (append_field [] typ) ints
    ∙ append_assoc (uint32_bytes (length typ)) typ (ints_bytes ints)

abbrev ints_of : Option (WireReader × Option (List Bytes)) → List Bytes
ints_of none = []
ints_of (some (r, none)) = []
ints_of (some (r, some ints)) = ints

abbrev ok_of : Option (WireReader × Option (List Bytes)) → Bool
ok_of none = false
ok_of (some (r, ints)) = r.ok

abbrev has_ints : Option (WireReader × Option (List Bytes)) → Bool
has_ints none = false
has_ints (some (r, none)) = false
has_ints (some (r, some ints)) = true

module _ (on_curve : Bytes → Bytes → Bool) where
  abbrev Again : Bytes → List Bytes → Type 0
  Again typ ints = read_key on_curve typ (reader (ints_bytes ints)) ≡ some (at_end, some ints)

  rsa-Again :
      (typ e n : Bytes)
      → eqb typ (codes "ssh-rsa") ≡ true
      → is_magnitude e ≡ true
      → is_magnitude n ≡ true
      → rsa_size n ≡ true
      → Again typ (e ∷ n ∷ [])
  unfolding read_key ints_bytes
  rsa-Again typ e n h he hn size = rw (h, mpint_ints e (n ∷ []) he, mpint_ints n [] hn, size) refl

  dss-Again :
      (typ p q g y : Bytes)
      → eqb typ (codes "ssh-rsa") ≡ false
      → eqb typ (codes "ssh-dss") ≡ true
      → is_magnitude p ≡ true
      → is_magnitude q ≡ true
      → is_magnitude g ≡ true
      → is_magnitude y ≡ true
      → Again typ (p ∷ q ∷ g ∷ y ∷ [])
  unfolding read_key ints_bytes
  dss-Again typ p q g y h h' hp hq hg hy =
      rw
        (
          h,
          h',
          mpint_ints p (q ∷ g ∷ y ∷ []) hp,
          mpint_ints q (g ∷ y ∷ []) hq,
          mpint_ints g (y ∷ []) hg,
          mpint_ints y [] hy,
        )
        refl

  rsa_read :
      (typ : Bytes) (r : WireReader)
      → eqb typ (codes "ssh-rsa") ≡ true
      → rsa_size (mpint (mpint r).1).0 ≡ true
      → read_key on_curve typ r
        ≡ some ((mpint (mpint r).1).1, some ((mpint r).0 ∷ (mpint (mpint r).1).0 ∷ []))
  unfolding read_key
  rsa_read typ r h k = rw (h, k) refl

  rsa_refused :
      (typ : Bytes) (r : WireReader)
      → eqb typ (codes "ssh-rsa") ≡ true
      → rsa_size (mpint (mpint r).1).0 ≡ false
      → read_key on_curve typ r ≡ none
  unfolding read_key
  rsa_refused typ r h k = rw (h, k) refl

  dss_read :
      (typ : Bytes) (r : WireReader)
      → eqb typ (codes "ssh-rsa") ≡ false
      → eqb typ (codes "ssh-dss") ≡ true
      → read_key on_curve typ r
        ≡ some (
          (mpint (mpint (mpint (mpint r).1).1).1).1,
          some (
              (mpint r).0
              ∷ (mpint (mpint r).1).0
              ∷ (mpint (mpint (mpint r).1).1).0
              ∷ (mpint (mpint (mpint (mpint r).1).1).1).0
              ∷ []),
        )
  unfolding read_key
  dss_read typ r h k = rw (h, k) refl

  no_ints :
      (typ : Bytes) (r : WireReader)
      → eqb typ (codes "ssh-rsa") ≡ false
      → eqb typ (codes "ssh-dss") ≡ false
      → has_ints (read_key on_curve typ r) ≡ false
  unfolding read_key
  no_ints typ r h k = ground (arith, h, k)

  abbrev Rereads : Bytes → WireReader → Type 0
  Rereads typ r =
      has_ints (read_key on_curve typ r) ≡ true
      → ok_of (read_key on_curve typ r) ≡ true
      → Again typ (ints_of (read_key on_curve typ r))

  read_rsa : (typ : Bytes) (r : WireReader) → eqb typ (codes "ssh-rsa") ≡ true → Rereads typ r
  read_rsa typ r rsa = elim (Bool-cases (rsa_size (mpint (mpint r).1).0)) [
    | inl size ↦ rw (rsa_read typ r rsa size) (λ h k.
        rsa-Again typ (mpint r).0 (mpint (mpint r).1).0 rsa
          (mpint-is_magnitude r (mpint_ok (mpint r).1 k)) (mpint-is_magnitude (mpint r).1 k) size)
    | inr small ↦ rw (rsa_refused typ r rsa small) (λ h k. absurd (false≢true h))
  ]

  read_dss :
      (typ : Bytes) (r : WireReader)
      → eqb typ (codes "ssh-rsa") ≡ false
      → eqb typ (codes "ssh-dss") ≡ true
      → Rereads typ r
  read_dss typ r other dss = rw (dss_read typ r other dss) (λ h k.
      let k3 = mpint_ok (mpint (mpint (mpint r).1).1).1 k in
      let k2 = mpint_ok (mpint (mpint r).1).1 k3 in
      let k1 = mpint_ok (mpint r).1 k2 in
      dss-Again typ _ _ _ _ other dss (mpint-is_magnitude r k1) (mpint-is_magnitude (mpint r).1 k2)
        (mpint-is_magnitude (mpint (mpint r).1).1 k3)
        (mpint-is_magnitude (mpint (mpint (mpint r).1).1).1 k))

  -- The integers that were read are read again from what is written for them.
  read-Again :
      (typ : Bytes) (r : WireReader)
      → has_ints (read_key on_curve typ r) ≡ true
      → ok_of (read_key on_curve typ r) ≡ true
      → Again typ (ints_of (read_key on_curve typ r))
  read-Again typ r = elim (Bool-cases (eqb typ (codes "ssh-rsa"))) [
    | inl rsa ↦ read_rsa typ r rsa
    | inr other ↦ elim (Bool-cases (eqb typ (codes "ssh-dss"))) [
      | inl dss ↦ read_dss typ r other dss
      | inr third ↦ λ h k. ground (arith, h, no_ints typ r other third)
    ]
  ]

  short_type :
      (typ : Bytes) (r : WireReader)
      → has_ints (read_key on_curve typ r) ≡ true
      → length typ < 4294967296
  short_type typ r h = elim (Bool-cases (eqb typ (codes "ssh-rsa"))) [
    | inl rsa ↦
        subst (λ t. length t < 4294967296) (sym (eq_of_eqb typ (codes "ssh-rsa") rsa)) (omega arith)
    | inr other ↦ elim (Bool-cases (eqb typ (codes "ssh-dss"))) [
      | inl dss ↦
          subst (λ t. length t < 4294967296) (sym (eq_of_eqb typ (codes "ssh-dss") dss))
            (omega arith)
      | inr third ↦ ground (arith, h, no_ints typ r other third)
    ]
  ]

  written_cases :
      (typ blob out : Bytes) (o : Option (WireReader × Option (List Bytes)))
      → written on_curve typ blob o ≡ some out
      → (blob ≡ out)
        ⊎ ((has_ints o ≡ true)
            × (ok_of o ≡ true)
            × (append_ints (append_field [] typ) (ints_of o) ≡ out))
  unfolding written
  written_cases typ blob out none h = ground (arith, h)
  written_cases typ blob out (some (r, none)) h = ground (arith, h)
  written_cases typ blob out (some (r, some ints)) h = ground (arith, h)

  canonical_key-written :
      (typ blob out : Bytes)
      → canonical_key on_curve typ blob ≡ some out
      → written on_curve typ blob (read_key on_curve typ (field (reader blob)).1) ≡ some out
  unfolding canonical_key
  canonical_key-written typ blob out = elim (Bool-cases (eqb (field (reader blob)).0 typ)) [
    | inl same ↦ rw same (λ h. h)
    | inr other ↦ rw other (λ h. cc)
  ]

  Again-canonical_key :
      (typ : Bytes) (ints : List Bytes)
      → length typ < 4294967296
      → Again typ ints
      → canonical_key on_curve typ (append_ints (append_field [] typ) ints)
        ≡ some (append_ints (append_field [] typ) ints)
  unfolding canonical_key written
  Again-canonical_key typ ints h again =
      subst
        (λ bytes. canonical_key on_curve typ bytes ≡ some (append_ints (append_field [] typ) ints))
        (sym (ints_flat typ ints))
        (rw (field-field_bytes typ (ints_bytes ints) h, eqb_refl typ, again) refl)

-- The canonical form of a key is a key of the same type and its own canonical form, whichever points
-- the curves hold: what `canonicalKey` returns it takes again, and returns unchanged.
pub canonical_key_idempotent :
    (on_curve : Bytes → Bytes → Bool) (typ blob out : Bytes)
    → canonical_key on_curve typ blob ≡ some out
    → canonical_key on_curve typ out ≡ some out
canonical_key_idempotent on_curve typ blob out h =
    let r = (field (reader blob)).1 in
    elim (written_cases on_curve typ blob out (read_key on_curve typ r)
      (canonical_key-written on_curve typ blob out h)) [
        | inl same ↦ subst (λ x. canonical_key on_curve typ x ≡ some out) same h
        | inr (has, taken, e) ↦
            subst (λ x. canonical_key on_curve typ x ≡ some x) e
              (Again-canonical_key on_curve typ (ints_of (read_key on_curve typ r))
                (short_type on_curve typ r has) (read-Again on_curve typ r has taken))
      ]
