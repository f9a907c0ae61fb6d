-- ===== src/Script/Encoding/Prefix.antt =====
-- `Tokens` cuts the flattened script.
use shard_lure.Common.{
  ℕ, zero, suc, ◌≤◌, ◌≡◌, refl, sym, ap, ◌∙◌, Bool, true, false, List, [], ◌∷◌, ◌++◌, Bytes, codes,
  leb, length, if◌then◌else◌, Bool-cases, inl, inr, arith,
}
use mathlib.Core.List.{append-nil, append_assoc}
use shard_lure.Script.Encoding.{split, first_of, add_lines, tokens}

-- All tokens of a script, a `;` before every line but the first.
unfoldable pub flatten : Bool → List (List Bytes) → List Bytes
flatten later [] = []
flatten later (c ∷ lines) = ((if later then codes ";" ∷ [] else []) ++ c) ++ flatten true lines

first_of_all : (n : ℕ) (out : List Bytes) → length out ≤ n → first_of n out ≡ out
first_of_all zero [] h = refl
first_of_all zero (t ∷ out) h = absurd (omega (arith, h))
first_of_all (suc n) [] h = refl
first_of_all (suc n) (t ∷ out) h = ap (λ r. t ∷ r) (first_of_all n out (omega (arith, h)))

first_of-append :
    (n : ℕ) (out rest : List Bytes) → n ≤ length out → first_of n (out ++ rest) ≡ first_of n out
first_of-append zero out rest h = refl
first_of-append (suc n) [] rest h = absurd (omega (arith, h))
first_of-append (suc n) (t ∷ out) rest h =
    ap (λ r. t ∷ r) (first_of-append n out rest (omega (arith, h)))

length-first_of : (n : ℕ) (out : List Bytes) → length (first_of n out) ≤ n
length-first_of zero out = omega arith
length-first_of (suc n) [] = omega arith
length-first_of (suc n) (t ∷ out) = omega (arith, length-first_of n out)

with_semicolon :
    (later : Bool) (out c rest : List Bytes)
    → ((if later then out ++ (codes ";" ∷ []) else out) ++ c) ++ rest
      ≡ out ++ (((if later then codes ";" ∷ [] else []) ++ c) ++ rest)
with_semicolon true out c rest =
    append_assoc (out ++ (codes ";" ∷ [])) c rest ∙ append_assoc out (codes ";" ∷ []) (c ++ rest)
with_semicolon false out c rest = append_assoc out c rest

add_lines-flatten :
    (later : Bool) (out : List Bytes) (lines : List (List Bytes))
    → length out ≤ 300
    → add_lines later out lines ≡ first_of 300 (out ++ flatten later lines)
unfolding add_lines flatten
add_lines-flatten later out [] h = sym (ap (first_of 300) (append-nil out) ∙ first_of_all 300 out h)
add_lines-flatten later out (c ∷ lines) h =
    let out' = (if later then out ++ (codes ";" ∷ []) else out) ++ c in
    elim (Bool-cases (leb 300 (length out'))) [
      | inl full ↦ rw full (
          sym (
            ap (first_of 300) (sym (with_semicolon later out c (flatten true lines)))
            ∙ first_of-append 300 out' (flatten true lines) (ground (arith, full))))
      | inr room ↦ rw room (
          add_lines-flatten true out' lines (ground (arith, room))
          ∙ ap (first_of 300) (with_semicolon later out c (flatten true lines)))
    ]

-- The tokens that distances compare are the first 300 of the whole script, its lines joined by `;`,
-- although the loop stops at the line that reaches 300; so they are never more than 300.
pub tokens-flatten :
    (enc : Bytes)
    → (tokens enc ≡ first_of 300 (flatten false (split enc))) × (length (tokens enc) ≤ 300)
unfolding tokens
tokens-flatten enc =
    let e = add_lines-flatten false [] (split enc) (omega arith) in
    (e, rw e (length-first_of 300 (flatten false (split enc))))
