-- ===== src/Script/Key.antt =====
-- internal/script/sshkey.go: the SSH wire encoding of public keys, read and written again as ssh-keygen
-- does before it hashes. The check that a point is on its curve (crypto/ecdh) is a parameter. What
-- `ExtractKeys` does around it, a regular expression, base64 and SHA-256, is not modelled.
pub mod Wire
pub mod Canonical
pub mod Padding
use shard_lure.Common.{
  ℕ, zero, suc, ◌+◌, ◌-◌, ◌*◌, ◌/◌, ◌%◌, Bool, true, false, ◌&&◌, ◌||◌, not, List, [], ◌∷◌, ◌++◌,
  Option, none, some, Bytes, codes, eqb, ltb, leb, ◌==◌, length, is_nil, if◌then◌else◌,
}

-- `n` bytes, and what follows them
abbrev pub take : ℕ → Bytes → Bytes
take zero b = []
take (suc n) [] = []
take (suc n) (c ∷ b) = c ∷ take n b

abbrev pub drop : ℕ → Bytes → Bytes
drop zero b = b
drop (suc n) [] = []
drop (suc n) (c ∷ b) = drop n b

-- `binary.BigEndian.AppendUint32(nil, uint32(n))`
unfoldable pub uint32_bytes : ℕ → Bytes
uint32_bytes n = n / 16777216 % 256 ∷ n / 65536 % 256 ∷ n / 256 % 256 ∷ n % 256 ∷ []

-- `appendField`
unfoldable pub append_field : Bytes → Bytes → Bytes
append_field b f = (b ++ uint32_bytes (length f)) ++ f

-- `wireReader`
pub record WireReader : Type 0 where
  pub b : Bytes
  pub ok : Bool

abbrev pub fail : WireReader → WireReader
fail r = record r { ok = false }

-- `field` on a reader that is still ok
unfoldable pub field_of : Bytes → Bytes × WireReader
field_of (c3 ∷ c2 ∷ c1 ∷ c0 ∷ b) =
    let n = ((c3 * 256 + c2) * 256 + c1) * 256 + c0 in
    if ltb (length b) n
    then ([], record { b = c3 ∷ c2 ∷ c1 ∷ c0 ∷ b; ok = false })
    else (take n b, record { b = drop n b; ok = true })
field_of b = ([], record { b = b; ok = false })

-- `(*wireReader).field`
unfoldable pub field : WireReader → Bytes × WireReader
field r = if r.ok then field_of r.b else ([], fail r)

-- `len(f) > 0 && f[0]&0x80 != 0`
abbrev pub has_top_bit : Bytes → Bool
has_top_bit [] = false
has_top_bit (c ∷ f) = leb 128 c

-- `f[0] != 0`
abbrev pub starts_nonzero : Bytes → Bool
starts_nonzero [] = false
starts_nonzero (c ∷ f) = not (c == 0)

abbrev pub strip_zeros : Bytes → Bytes
strip_zeros [] = []
strip_zeros (c ∷ f) = let rest = strip_zeros f in if c == 0 then rest else c ∷ f

-- `(*wireReader).mpint`
unfoldable pub mpint : WireReader → Bytes × WireReader
mpint r =
    let (f, r') = field r in
    if not r'.ok || (has_top_bit f || (ltb 2049 (length f) || length f == 2049 && starts_nonzero f))
    then ([], fail r')
    else (strip_zeros f, r')

-- `(*wireReader).fixed`
unfoldable pub fixed : ℕ → WireReader → WireReader
fixed n r = let (f, r') = field r in if length f == n then r' else fail r'

-- `for c := n[0]; c&0x80 == 0; c <<= 1 { bits-- }`; a byte other than 0 needs seven rounds at most.
unfoldable pub drop_high : ℕ → ℕ → ℕ → ℕ
drop_high zero c bits = bits
drop_high (suc fuel) c bits =
    let rest = drop_high fuel (c * 2 % 256) (bits - 1) in if leb 128 c then bits else rest

-- The check on an RSA modulus.
unfoldable pub rsa_size : Bytes → Bool
rsa_size [] = false
rsa_size (c ∷ n) =
    let bits = drop_high 8 c (length (c ∷ n) * 8) in not (ltb bits 1024 || ltb 16384 bits)

-- `if len(v) > 0 && v[0]&0x80 != 0 { v = append([]byte{0}, v...) }`
abbrev pub signed : Bytes → Bytes
signed v = if has_top_bit v then 0 ∷ v else v

unfoldable pub append_ints : Bytes → List Bytes → Bytes
append_ints out [] = out
append_ints out (v ∷ ints) = append_ints (append_field out (signed v)) ints

module _ (on_curve : Bytes → Bytes → Bool) where
  -- `(*wireReader).point`; `on_curve` is `NewPublicKey` on the named curve without an error, and false
  -- for the name of no curve.
  unfoldable pub point : Bytes → WireReader → WireReader
  point curve r =
      let (name, r') = field r in
      let (q, r'') = field r' in
      if not (eqb name curve)
      then fail r'
      else if not r''.ok || not (on_curve curve q)
      then fail r''
      else r''

  -- The switch on the type: the reader after its fields, and the integers of the types that have some.
  unfoldable pub read_key : Bytes → WireReader → Option (WireReader × Option (List Bytes))
  read_key typ r =
      if eqb typ (codes "ssh-rsa")
      then (let (e, r') = mpint r in
          let (n, r'') = mpint r' in if rsa_size n then some (r'', some (e ∷ n ∷ [])) else none)
      else if eqb typ (codes "ssh-dss")
      then (let (p, r1) = mpint r in
          let (q, r2) = mpint r1 in
          let (g, r3) = mpint r2 in let (y, r4) = mpint r3 in some (r4, some (p ∷ q ∷ g ∷ y ∷ [])))
      else if eqb typ (codes "ssh-ed25519")
      then some (fixed 32 r, none)
      else if eqb typ (codes "sk-ssh-ed25519@openssh.com")
      then some ((field (fixed 32 r)).1, none)
      else if eqb typ (codes "ecdsa-sha2-nistp256")
          || (eqb typ (codes "ecdsa-sha2-nistp384") || eqb typ (codes "ecdsa-sha2-nistp521"))
      then some (point (drop 11 typ) r, none)
      else if eqb typ (codes "sk-ecdsa-sha2-nistp256@openssh.com")
      then some ((field (point (codes "nistp256") r)).1, none)
      else none

  -- What `canonicalKey` does after the switch.
  unfoldable pub written : Bytes → Bytes → Option (WireReader × Option (List Bytes)) → Option Bytes
  written typ blob none = none
  written typ blob (some (r, none)) = if not r.ok || not (is_nil r.b) then none else some blob
  written typ blob (some (r, some ints)) =
      if not r.ok || not (is_nil r.b) then none else some (append_ints (append_field [] typ) ints)

  -- `canonicalKey`
  unfoldable pub canonical_key : Bytes → Bytes → Option Bytes
  canonical_key typ blob =
      let (name, r) = field (record { b = blob; ok = true }) in
      if eqb name typ then written typ blob (read_key typ r) else none
