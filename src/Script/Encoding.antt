-- ===== src/Script/Encoding.antt =====
-- internal/script/normalize.go and distance.go: a session's script as one text. A token list is what
-- `NormalizeCommand` answers for a line, which is not modelled. `join_with` and `split_on` are
-- `strings.Join` and `strings.Split` for a separator of one byte.
pub mod RoundTrip
pub mod Prefix
use shard_lure.Common.{
  ℕ, zero, suc, Bool, true, false, List, [], ◌∷◌, ◌++◌, map, Bytes, codes, eqb, leb, ◌==◌, length,
  is_nil, if◌then◌else◌,
}

unfoldable pub join_with : ℕ → List Bytes → Bytes
join_with sep [] = []
join_with sep (p ∷ []) = p
join_with sep (p ∷ q ∷ parts) = p ++ (sep ∷ join_with sep (q ∷ parts))

-- A byte before the first part.
abbrev pub onto_first : ℕ → List Bytes → List Bytes
onto_first c [] = (c ∷ []) ∷ []
onto_first c (p ∷ parts) = (c ∷ p) ∷ parts

unfoldable pub split_on : ℕ → Bytes → List Bytes
split_on sep [] = [] ∷ []
split_on sep (c ∷ s) =
    let rest = split_on sep s in if c == sep then [] ∷ rest else onto_first c rest

abbrev pub tok_sep : ℕ
tok_sep = 31

abbrev pub line_sep : ℕ
line_sep = 30

-- `EncodeLine`, after the normalisation
unfoldable pub encode_line : List Bytes → Bytes
encode_line toks = join_with tok_sep toks

-- `Join`
unfoldable pub join : List Bytes → Bytes
join lines = join_with line_sep lines

-- One round of the loop of `Split`
unfoldable pub decode_line : Bytes → List Bytes
decode_line l = if is_nil l then [] else split_on tok_sep l

-- `Split`
unfoldable pub split : Bytes → List (List Bytes)
split enc = if is_nil enc then [] else map decode_line (split_on line_sep enc)

-- `out[:n]`
abbrev pub first_of : ℕ → List Bytes → List Bytes
first_of zero out = []
first_of (suc n) [] = []
first_of (suc n) (t ∷ out) = t ∷ first_of n out

-- The loop of `Tokens`, whose `i > 0` is `later`
unfoldable pub add_lines : Bool → List Bytes → List (List Bytes) → List Bytes
add_lines later out [] = out
add_lines later out (c ∷ lines) =
    let out' = (if later then out ++ (codes ";" ∷ []) else out) ++ c in
    let rest = add_lines true out' lines in
    if leb 300 (length out') then first_of 300 out' else rest

-- `Tokens`
unfoldable pub tokens : Bytes → List Bytes
tokens enc = add_lines false [] (split enc)
