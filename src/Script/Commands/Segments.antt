-- ===== src/Script/Commands/Segments.antt =====
-- The simple commands of a script.
use shard_lure.Common.{
  ◌≡◌, refl, sym, subst, ap, ◌∙◌, Bool, true, ◌&&◌, not, List, [], ◌∷◌, ◌++◌, Bytes, is_nil, all,
  if◌then◌else◌, Bool-cases, inl, inr, arith,
}
use mathlib.Core.List.{append-nil, append_assoc}
use shard_lure.Script.Commands.{is_operator, close_segment, cut_line, cut_lines, segments}

unfoldable pub words : List (List Bytes) → List Bytes
words [] = []
words (c ∷ cmds) = c ++ words cmds

-- The words that are no operators.
unfoldable pub plain : List Bytes → List Bytes
plain [] = []
plain (t ∷ toks) = let rest = plain toks in if is_operator t then rest else t ∷ rest

-- A segment has a word, and no word that is an operator.
abbrev pub is_segment : List Bytes → Bool
is_segment seg = not (is_nil seg) && all (λ t. not (is_operator t)) seg

words-append : (xs ys : List (List Bytes)) → words (xs ++ ys) ≡ words xs ++ words ys
unfolding words
words-append [] ys = refl
words-append (c ∷ xs) ys =
    ap (λ r. c ++ r) (words-append xs ys) ∙ sym (append_assoc c (words xs) (words ys))

plain-append : (xs ys : List Bytes) → plain (xs ++ ys) ≡ plain xs ++ plain ys
unfolding plain
plain-append [] ys = refl
plain-append (t ∷ xs) ys = ground (arith, plain-append xs ys)

all-append :
    {A : Type 0} (p : A → Bool) (xs ys : List A) → all p (xs ++ ys) ≡ (all p xs && all p ys)
all-append p [] ys = refl
all-append p (x ∷ xs) ys = ground (arith, all-append p xs ys)

-- What closing a segment keeps.
close_words :
    (out : List (List Bytes)) (cur : List Bytes) → words (close_segment out cur) ≡ words out ++ cur
unfolding close_segment words
close_words out [] = sym (append-nil (words out))
close_words out (t ∷ cur) =
    words-append out ((t ∷ cur) ∷ []) ∙ ap (λ r. words out ++ r) (append-nil (t ∷ cur))

close_good :
    (out : List (List Bytes)) (cur : List Bytes)
    → all is_segment out ≡ true
    → all (λ t. not (is_operator t)) cur ≡ true
    → all is_segment (close_segment out cur) ≡ true
unfolding close_segment
close_good out [] h k = h
close_good out (t ∷ cur) h k = ground (arith, h, k, all-append is_segment out ((t ∷ cur) ∷ []))

cut_words :
    (out : List (List Bytes)) (cur toks : List Bytes)
    → words (cut_line out cur toks) ≡ words out ++ (cur ++ plain toks)
unfolding cut_line plain
cut_words out cur [] = close_words out cur ∙ ap (λ r. words out ++ r) (sym (append-nil cur))
cut_words out cur (t ∷ toks) = elim (Bool-cases (is_operator t)) [
  | inl op ↦ rw op (
      cut_words (close_segment out cur) [] toks
      ∙ (ap (λ r. r ++ plain toks) (close_words out cur)
          ∙ append_assoc (words out) cur (plain toks)))
  | inr word ↦ rw word (
      cut_words out (cur ++ (t ∷ [])) toks
      ∙ ap (λ r. words out ++ r) (append_assoc cur (t ∷ []) (plain toks)))
]

cut_good :
    (out : List (List Bytes)) (cur toks : List Bytes)
    → all is_segment out ≡ true
    → all (λ t. not (is_operator t)) cur ≡ true
    → all is_segment (cut_line out cur toks) ≡ true
unfolding cut_line
cut_good out cur [] h k = close_good out cur h k
cut_good out cur (t ∷ toks) h k = elim (Bool-cases (is_operator t)) [
  | inl op ↦ rw op (cut_good (close_segment out cur) [] toks (close_good out cur h k) refl)
  | inr word ↦ rw word (
      cut_good out (cur ++ (t ∷ [])) toks h
        (ground (arith, k, word, all-append (λ s. not (is_operator s)) cur (t ∷ []))))
]

all_cut :
    (out cmds : List (List Bytes))
    → all is_segment out ≡ true
    → (all is_segment (cut_lines out cmds) ≡ true)
      × (words (cut_lines out cmds) ≡ words out ++ plain (words cmds))
unfolding cut_lines words plain
all_cut out [] h = (h, sym (append-nil (words out)))
all_cut out (c ∷ cmds) h =
    let (good, same) = all_cut (cut_line out [] c) cmds (cut_good out [] c h refl) in
    (
      good,
      same
          ∙ (ap (λ r. r ++ plain (words cmds)) (cut_words out [] c)
              ∙ (append_assoc (words out) (plain c) (plain (words cmds))
                  ∙ ap (λ r. words out ++ r) (sym (plain-append c (words cmds))))),
    )

-- The words of the segments are those of the script that are no operators, in their order.
segments-words :
    (cmds : List (List Bytes))
    → (all is_segment (segments cmds) ≡ true) × (words (segments cmds) ≡ plain (words cmds))
unfolding segments
segments-words cmds = let (good, same) = all_cut [] cmds refl in (good, unfold words in same)

abbrev has_no_operator : List Bytes → Bool
has_no_operator p = all (λ t. not (is_operator t)) p

-- The pieces of a line: it is the pieces with one operator between any two neighbours, and no piece
-- has an operator.
pub data Pieces : List Bytes → List (List Bytes) → Type 0 where
  last : {p : List Bytes} → has_no_operator p ≡ true → Pieces p (p ∷ [])
  more :
      {p line : List Bytes} {ps : List (List Bytes)} (o : Bytes)
      → has_no_operator p ≡ true
      → is_operator o ≡ true
      → Pieces line ps
      → Pieces (p ++ o ∷ line) (p ∷ ps)

-- The pieces that are not empty.
pub full : List (List Bytes) → List (List Bytes)
full [] = []
full (p ∷ ps) = if is_nil p then full ps else p ∷ full ps

-- The segments are the pieces of the lines that are not empty, line after line.
pub data AreCut : List (List Bytes) → List (List Bytes) → Type 0 where
  none_left : AreCut [] []
  line :
      {c : List Bytes} {cmds segs ps : List (List Bytes)}
      → Pieces c ps
      → AreCut cmds segs
      → AreCut (c ∷ cmds) (full ps ++ segs)

close_full :
    (out : List (List Bytes)) (cur : List Bytes) → close_segment out cur ≡ out ++ full (cur ∷ [])
unfolding close_segment full
close_full out [] = sym (append-nil out)
close_full out (t ∷ cur) = refl

full_cons : (p : List Bytes) (ps : List (List Bytes)) → full (p ∷ []) ++ full ps ≡ full (p ∷ ps)
unfolding full
full_cons [] ps = refl
full_cons (t ∷ p) ps = refl

-- One line, of which `cur` was read.
cut_line-Pieces :
    (out : List (List Bytes)) (cur toks : List Bytes)
    → has_no_operator cur ≡ true
    → (ps : List (List Bytes)) × Pieces (cur ++ toks) ps × (cut_line out cur toks ≡ out ++ full ps)
unfolding cut_line
cut_line-Pieces out cur [] h = (
  cur ∷ [],
  subst (λ c. Pieces c (cur ∷ [])) (sym (append-nil cur)) (Pieces.last h),
  close_full out cur,
)
cut_line-Pieces out cur (t ∷ toks) h = elim (Bool-cases (is_operator t)) [
  | inl op ↦
      let (ps, cut, same) = cut_line-Pieces (close_segment out cur) [] toks refl in
      (
        cur ∷ ps,
        Pieces.more t h op cut,
        rw op (
            same
            ∙ (ap (λ r. r ++ full ps) (close_full out cur)
                ∙ (append_assoc out (full (cur ∷ [])) (full ps)
                    ∙ ap (λ r. out ++ r) (full_cons cur ps)))),
      )
  | inr word ↦
      let (ps, cut, same) =
        cut_line-Pieces out (cur ++ t ∷ []) toks
          (ground (arith, h, word, all-append (λ s. not (is_operator s)) cur (t ∷ []))) in
      (ps, subst (λ c. Pieces c ps) (append_assoc cur (t ∷ []) toks) cut, rw word same)
]

cut_lines-AreCut :
    (out cmds : List (List Bytes))
    → (segs : List (List Bytes)) × AreCut cmds segs × (cut_lines out cmds ≡ out ++ segs)
unfolding cut_lines
cut_lines-AreCut out [] = ([], AreCut.none_left, sym (append-nil out))
cut_lines-AreCut out (c ∷ cmds) =
    let (ps, cut, same) = cut_line-Pieces out [] c refl in
    let (segs, rest, next) = cut_lines-AreCut (cut_line out [] c) cmds in
    (
      full ps ++ segs,
      AreCut.line cut rest,
      next ∙ (ap (λ r. r ++ segs) same ∙ append_assoc out (full ps) segs),
    )

-- The simple commands of a script are its lines cut at the operators: each line is pieces without an
-- operator, with one operator between any two neighbours, and the segments are the pieces that are
-- not empty, line after line. So each operator and each end of a line ends a segment, nothing else
-- does, and no word is lost.
pub segments-AreCut : (cmds : List (List Bytes)) → AreCut cmds (segments cmds)
unfolding segments
segments-AreCut cmds =
    let (segs, cut, same) = cut_lines-AreCut [] cmds in subst (AreCut cmds) (sym same) cut
