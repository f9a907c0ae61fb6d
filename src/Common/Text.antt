-- ===== src/Common/Text.antt =====
-- Texts as lists of bytes, with the functions of Go's `strings` that the program calls on them.
-- `to_lower` and `trim_space` act on ASCII, which is what hosts, addresses and labels are.
use Prim.Native.Nat.{ℕ, ◌+◌}
use Prim.Native.Char.{code}
use Prim.Native.String.{String}
use mathlib.Core.Path.{◌≡◌, refl}
use mathlib.Core.Bool.{Bool, true, false, not, ◌||◌, ◌&&◌}
use mathlib.Core.List.{List, [], ◌∷◌, ◌++◌, reverse, map}
use native.Mathlib.Omega.{arith}
use mathlib.Core.Logic.{inl, inr}
use shard_lure.Common.Tests.{Bool-cases, leb, ◌==◌, if◌then◌else◌}
use shard_lure.Common.Lists.{any, all}

abbrev pub Bytes : Type 0
Bytes = List ℕ

-- The bytes of an ASCII literal.
abbrev pub codes : String → Bytes
codes String.[] = []
codes (String.◌∷◌ c s) = code c ∷ codes s

-- `s == t`
unfoldable pub eqb : Bytes → Bytes → Bool
eqb [] [] = true
eqb [] (d ∷ t) = false
eqb (c ∷ s) [] = false
eqb (c ∷ s) (d ∷ t) = c == d && eqb s t

pub eqb_refl : (s : Bytes) → eqb s s ≡ true
unfolding eqb
eqb_refl [] = refl
eqb_refl (c ∷ s) = ground (arith, eqb_refl s)

pub eq_of_eqb : (s t : Bytes) → eqb s t ≡ true → s ≡ t
unfolding eqb
eq_of_eqb [] [] h = refl
eq_of_eqb [] (d ∷ t) h = cc
eq_of_eqb (c ∷ s) [] h = cc
eq_of_eqb (c ∷ s) (d ∷ t) h = ground (arith, eq_of_eqb s t)

-- Membership in a Go `map[string]bool` or `map[string]struct{}` given as the list of its keys.
abbrev pub has_key : List Bytes → Bytes → Bool
has_key keys k = any (eqb k) keys

unfoldable pub has_prefix : Bytes → Bytes → Bool
has_prefix s [] = true
has_prefix [] (p ∷ ps) = false
has_prefix (c ∷ s) (p ∷ ps) = c == p && has_prefix s ps

unfoldable pub has_suffix : Bytes → Bytes → Bool
unfolding has_prefix
has_suffix s t = has_prefix (reverse s) (reverse t)

unfoldable pub trim_prefix : Bytes → Bytes → Bytes
trim_prefix s [] = s
trim_prefix [] (p ∷ ps) = []
trim_prefix (c ∷ s) (p ∷ ps) =
    let t = trim_prefix s ps in let hit = c == p && has_prefix s ps in if hit then t else c ∷ s

unfoldable pub lower_byte : ℕ → ℕ
lower_byte c = if leb b'A' c && leb c b'Z' then c + 32 else c

unfoldable pub to_lower : Bytes → Bytes
unfolding lower_byte
to_lower s = map lower_byte s

-- `strings.Contains(s, string(b))`
abbrev pub contains_byte : Bytes → ℕ → Bool
contains_byte s b = any (λ c. c == b) s

-- ASCII `unicode.IsSpace`
abbrev pub is_space : ℕ → Bool
is_space c = c == 32 || (leb 9 c && leb c 13)

unfoldable pub trim_left : Bytes → Bytes
trim_left [] = []
trim_left (c ∷ s) = let rest = trim_left s in if is_space c then rest else c ∷ s

unfoldable pub trim_space : Bytes → Bytes
unfolding trim_left
trim_space s = reverse (trim_left (reverse (trim_left s)))

-- `strings.TrimSuffix(s, string(b))`
unfoldable pub trim_suffix : Bytes → ℕ → Bytes
trim_suffix [] b = []
trim_suffix (c ∷ []) b = if c == b then [] else c ∷ []
trim_suffix (c ∷ d ∷ s) b = c ∷ trim_suffix (d ∷ s) b

-- `strings.Split(s, string(b))`: at least one part.
split_step : ℕ → ℕ → List Bytes → List Bytes
split_step c b [] = []
split_step c b (p ∷ ps) = if c == b then [] ∷ p ∷ ps else (c ∷ p) ∷ ps

unfoldable pub split : Bytes → ℕ → List Bytes
unfolding split_step
split [] b = [] ∷ []
split (c ∷ s) b = split_step c b (split s b)

pub split_one : (p : Bytes) (b : ℕ) → all (λ c. not (c == b)) p ≡ true → split p b ≡ p ∷ []
unfolding split split_step
split_one [] b h = refl
split_one (c ∷ p) b h = ground (arith, h, split_one p b)

split_some : (s : Bytes) (b : ℕ) → (p : Bytes) × (ps : List Bytes) × (split s b ≡ p ∷ ps)
unfolding split split_step
split_some [] b = ([], [], refl)
split_some (c ∷ s) b =
    let (p, ps, e) = split_some s b in
    elim (Bool-cases (c == b)) [
      | inl m ↦ ([], p ∷ ps, rw (e, m) refl)
      | inr m ↦ (c ∷ p, ps, rw (e, m) refl)
    ]

pub split_more :
    (p s : Bytes) (b : ℕ) → all (λ c. not (c == b)) p ≡ true → split (p ++ b ∷ s) b ≡ p ∷ split s b
unfolding split split_step
split_more [] s b h = let (p, ps, e) = split_some s b in ground (arith, e)
split_more (c ∷ p) s b h = ground (arith, h, split_more p s b)

pub eqb_ne : (s t : Bytes) → ¬ (s ≡ t) → eqb s t ≡ false
eqb_ne s t h = elim (Bool-cases (eqb s t)) [ inl e ↦ absurd (h (eq_of_eqb s t e)) | inr e ↦ e ]
