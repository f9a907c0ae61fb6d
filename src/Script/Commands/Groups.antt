-- ===== src/Script/Commands/Groups.antt =====
-- Where the target of a redirection ends.
use shard_lure.Common.{
  ℕ, zero, suc, ◌+◌, ◌-◌, ◌≤◌, ◌<◌, ◌≡◌, refl, ap, ◌∙◌, Bool, true, false, ◌||◌, not, List, [], ◌∷◌,
  Bytes, codes, eqb, eq_of_eqb, leb, ◌==◌, length, get_or, Bool-cases, inl, inr, subst, arith,
}
use shard_lure.Script.Commands.{
  is_operator, is_heredoc, trim_digits, scan_group, from_index, group_end,
}

-- A word that ends a command, or that begins a heredoc.
abbrev pub is_stop : Bytes → Bool
is_stop t = eqb t (10 ∷ []) || (is_operator t || is_heredoc t)

-- From index `j` on, where `rest` begins, the words up to `r` are in range and none is a stop.
abbrev Scanned : ℕ → List Bytes → ℕ → Type 0
Scanned j rest r =
    (j ≤ r + 1)
    × (r + 1 ≤ j + length rest)
    × ((m : ℕ) → j + m ≤ r → is_stop (get_or rest m []) ≡ false)

nothing-Scanned : (j : ℕ) (rest : List Bytes) → 1 ≤ j → Scanned j rest (j - 1)
nothing-Scanned j rest h = (omega (arith, h), omega (arith, h), λ m k. absurd (omega (arith, h, k)))

word_inside :
    (t : Bytes) (j r : ℕ) (toks : List Bytes)
    → is_stop t ≡ false
    → ((m : ℕ) → j + 1 + m ≤ r → is_stop (get_or toks m []) ≡ false)
    → (m : ℕ) → j + m ≤ r
    → is_stop (get_or (t ∷ toks) m []) ≡ false
word_inside t j r toks h c zero k = h
word_inside t j r toks h c (suc m) k = c m (omega (arith, k))

word-Scanned :
    (t : Bytes) (j r : ℕ) (toks : List Bytes)
    → is_stop t ≡ false
    → Scanned (j + 1) toks r
    → Scanned j (t ∷ toks) r
word-Scanned t j r toks h (a, b, c) =
    (omega (arith, a), omega (arith, b), word_inside t j r toks h c)

one-Scanned : (t : Bytes) (j : ℕ) (toks : List Bytes) → is_stop t ≡ false → Scanned j (t ∷ toks) j
one-Scanned t j toks h =
    (omega arith, omega arith, word_inside t j j toks h (λ m k. absurd (omega (arith, k))))

open_no_stop : (t : Bytes) → eqb t (codes "(") ≡ true → is_stop t ≡ false
unfolding is_operator is_heredoc trim_digits eqb
open_no_stop t h = rw (eq_of_eqb t (codes "(") h) refl

close_no_stop : (t : Bytes) → eqb t (codes ")") ≡ true → is_stop t ≡ false
unfolding is_operator is_heredoc trim_digits eqb
close_no_stop t h = rw (eq_of_eqb t (codes ")") h) refl

scan_group-Scanned :
    (depth j : ℕ) (rest : List Bytes) → 1 ≤ j → Scanned j rest (scan_group depth j rest)
unfolding scan_group
scan_group-Scanned depth j [] h = nothing-Scanned j [] h
scan_group-Scanned depth j (t ∷ toks) h = elim (Bool-cases (eqb t (10 ∷ []))) [
  | inl newline ↦ rw newline (nothing-Scanned j (t ∷ toks) h)
  | inr inline ↦ elim (Bool-cases (eqb t (codes "("))) [
    | inl opens ↦
        rw (inline, opens)
          (word-Scanned t j (scan_group (depth + 1) (j + 1) toks) toks (open_no_stop t opens)
            (scan_group-Scanned (depth + 1) (j + 1) toks (omega arith)))
    | inr other ↦ elim (Bool-cases (eqb t (codes ")"))) [
      | inl closes ↦ elim (Bool-cases (depth - 1 == 0)) [
        | inl last ↦
            rw (inline, other, closes, last) (one-Scanned t j toks (close_no_stop t closes))
        | inr more ↦
            rw (inline, other, closes, more)
              (word-Scanned t j (scan_group (depth - 1) (j + 1) toks) toks (close_no_stop t closes)
                (scan_group-Scanned (depth - 1) (j + 1) toks (omega arith)))
      ]
      | inr word ↦ elim (Bool-cases (is_operator t || is_heredoc t)) [
        | inl stops ↦ rw (inline, other, word, stops) (nothing-Scanned j (t ∷ toks) h)
        | inr plain ↦
            rw (inline, other, word, plain)
              (word-Scanned t j (scan_group depth (j + 1) toks) toks (rw (inline, plain) refl)
                (scan_group-Scanned depth (j + 1) toks (omega arith)))
      ]
    ]
  ]
]

zero_plus : (m : ℕ) → m ≡ 0 + m
zero_plus m = omega arith

suc_plus : (n m : ℕ) → suc (n + m) ≡ suc n + m
suc_plus n m = omega arith

from_index-get_or :
    (n m : ℕ) (toks : List Bytes) → get_or (from_index n toks) m [] ≡ get_or toks (n + m) []
from_index-get_or zero m toks = ap (λ k. get_or toks k []) (zero_plus m)
from_index-get_or (suc n) m [] = refl
from_index-get_or (suc n) m (t ∷ toks) =
    from_index-get_or n m toks ∙ ap (λ k. get_or (t ∷ toks) k []) (suc_plus n m)

length-from_index :
    (n : ℕ) (toks : List Bytes) → n ≤ length toks → n + length (from_index n toks) ≡ length toks
length-from_index zero toks h = omega arith
length-from_index (suc n) [] h = absurd (omega (arith, h))
length-from_index (suc n) (t ∷ toks) h = omega (arith, length-from_index n toks (omega (arith, h)))

-- The group of a redirection's target never swallows what follows the command: it ends within the
-- line, at its target or after it, and no word behind the target up to its end is a line break, an
-- operator or the start of a heredoc, also when its parentheses are not closed.
pub group_end_bounds :
    (toks : List Bytes) (i : ℕ)
    → i < length toks
    → (i ≤ group_end toks i)
      × (group_end toks i < length toks)
      × ((k : ℕ) → i < k → k ≤ group_end toks i → is_stop (get_or toks k []) ≡ false)
unfolding group_end
group_end_bounds toks i h =
    elim (Bool-cases
      (leb (length toks) (i + 1) || not (eqb (get_or toks (i + 1) []) (codes "(")))) [
        | inl alone ↦ rw alone (omega arith, h, λ k l m. absurd (omega (arith, l, m)))
        | inr group ↦
            let inside : i + 1 ≤ length toks = omega (arith, h) in
            let (a, b, c) = scan_group-Scanned 0 (i + 1) (from_index (i + 1) toks) (omega arith) in
            rw group (
              omega (arith, a),
              omega (arith, b, length-from_index (i + 1) toks inside),
              λ k l m.
                  let place : i + 1 + (k - (i + 1)) ≡ k = omega (arith, l) in
                  subst (λ z. is_stop (get_or toks z []) ≡ false) place
                    (subst (λ w. is_stop w ≡ false) (from_index-get_or (i + 1) (k - (i + 1)) toks)
                      (c (k - (i + 1)) (omega (arith, l, m)))),
            )
      ]
