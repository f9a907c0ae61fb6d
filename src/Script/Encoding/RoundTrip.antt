-- ===== src/Script/Encoding/RoundTrip.antt =====
-- What is joined is split again.
use shard_lure.Common.{
  ℕ, ◌≡◌, refl, ap, ◌∙◌, Bool, true, false, ◌&&◌, not, List, [], ◌∷◌, ◌++◌, map, Bytes, ◌==◌,
  is_nil, All, arith,
}
use shard_lure.Script.Encoding.{
  join_with, split_on, tok_sep, line_sep, encode_line, join, decode_line, split,
}

-- The separator is no byte of the text.
unfoldable pub lacks : ℕ → Bytes → Bool
lacks sep [] = true
lacks sep (c ∷ s) = not (c == sep) && lacks sep s

split_on_one : (sep : ℕ) (p : Bytes) → lacks sep p ≡ true → split_on sep p ≡ p ∷ []
unfolding lacks split_on
split_on_one sep [] h = refl
split_on_one sep (c ∷ p) h = ground (arith, h, split_on_one sep p)

split_on_more :
    (sep : ℕ) (p s : Bytes)
    → lacks sep p ≡ true
    → split_on sep (p ++ (sep ∷ s)) ≡ p ∷ split_on sep s
unfolding lacks split_on
split_on_more sep [] s h = ground arith
split_on_more sep (c ∷ p) s h = ground (arith, h, split_on_more sep p s)

-- Parts without the separator, at least one.
pub split_on-join_with :
    (sep : ℕ) (p : Bytes) (parts : List Bytes)
    → All (λ q. lacks sep q ≡ true) (p ∷ parts)
    → split_on sep (join_with sep (p ∷ parts)) ≡ p ∷ parts
unfolding join_with
split_on-join_with sep p [] (h, hs) = split_on_one sep p h
split_on-join_with sep p (q ∷ parts) (h, hs) =
    split_on_more sep p (join_with sep (q ∷ parts)) h
    ∙ ap (λ rest. p ∷ rest) (split_on-join_with sep q parts hs)

-- A token that is not empty and holds no separator.
abbrev pub is_token : Bytes → Bool
is_token t = not (is_nil t) && (lacks tok_sep t && lacks line_sep t)

abbrev pub IsLine : List Bytes → Type 0
IsLine = All (λ t. is_token t ≡ true)

lacks-append :
    (sep : ℕ) (s t : Bytes) → lacks sep s ≡ true → lacks sep t ≡ true → lacks sep (s ++ t) ≡ true
unfolding lacks
lacks-append sep [] t h k = k
lacks-append sep (c ∷ s) t h k = ground (arith, h, k, lacks-append sep s t)

encode_line-lacks : (toks : List Bytes) → IsLine toks → lacks line_sep (encode_line toks) ≡ true
unfolding encode_line join_with lacks
encode_line-lacks [] h = refl
encode_line-lacks (t ∷ []) (h, hs) = ground (arith, h)
encode_line-lacks (t ∷ q ∷ toks) (h, hs) =
    lacks-append line_sep t (tok_sep ∷ join_with tok_sep (q ∷ toks)) (ground (arith, h))
      (encode_line-lacks (q ∷ toks) hs)

tokens_lack : (toks : List Bytes) → IsLine toks → All (λ q. lacks tok_sep q ≡ true) toks
tokens_lack [] h = tt
tokens_lack (t ∷ toks) (h, hs) = (ground (arith, h), tokens_lack toks hs)

not_nil :
    (t : Bytes) (toks : List Bytes)
    → is_token t ≡ true
    → is_nil (join_with tok_sep (t ∷ toks)) ≡ false
unfolding join_with
not_nil [] toks h = cc
not_nil (c ∷ t) [] h = refl
not_nil (c ∷ t) (q ∷ toks) h = refl

decode_line-encode_line : (toks : List Bytes) → IsLine toks → decode_line (encode_line toks) ≡ toks
unfolding decode_line encode_line
decode_line-encode_line [] h = unfold join_with in refl
decode_line-encode_line (t ∷ toks) (h, hs) =
    rw (not_nil t toks h) (split_on-join_with tok_sep t toks (tokens_lack (t ∷ toks) (h, hs)))

lines_lack :
    (cmds : List (List Bytes))
    → All IsLine cmds
    → All (λ q. lacks line_sep q ≡ true) (map encode_line cmds)
lines_lack [] h = tt
lines_lack (c ∷ cmds) (h, hs) = (encode_line-lacks c h, lines_lack cmds hs)

decode-All :
    (cmds : List (List Bytes)) → All IsLine cmds → map decode_line (map encode_line cmds) ≡ cmds
decode-All [] h = refl
decode-All (c ∷ cmds) (h, hs) = rw (decode_line-encode_line c h, decode-All cmds hs) refl

-- A script of one empty line, whose text is that of no line.
abbrev pub is_blank : List (List Bytes) → Bool
is_blank ([] ∷ []) = true
is_blank _ = false

nil-append : (p : Bytes) (sep : ℕ) (s : Bytes) → is_nil (p ++ (sep ∷ s)) ≡ false
nil-append [] sep s = refl
nil-append (c ∷ p) sep s = refl

text_not_nil :
    (c : List Bytes) (cmds : List (List Bytes))
    → IsLine c
    → is_blank (c ∷ cmds) ≡ false
    → is_nil (join_with line_sep (encode_line c ∷ map encode_line cmds)) ≡ false
unfolding join_with encode_line
text_not_nil [] [] h k = ground (arith, k)
text_not_nil (t ∷ toks) [] (h, hs) k = not_nil t toks h
text_not_nil c (d ∷ cmds) h k =
    nil-append (encode_line c) line_sep (join_with line_sep (encode_line d ∷ map encode_line cmds))

-- A script comes back as it was encoded: of the lines of any script, their tokens not empty and
-- without the two separators, the encoded text splits into these lines again; only a script that is
-- one empty line does not, and is excluded.
pub split-join :
    (cmds : List (List Bytes))
    → All IsLine cmds
    → is_blank cmds ≡ false
    → split (join (map encode_line cmds)) ≡ cmds
unfolding split join
split-join [] h k = unfold join_with in refl
split-join (c ∷ cmds) (h, hs) k = rw (text_not_nil c cmds h k) (
    ap (map decode_line) (
      split_on-join_with line_sep (encode_line c) (map encode_line cmds)
        (encode_line-lacks c h, lines_lack cmds hs))
    ∙ decode-All (c ∷ cmds) (h, hs))
