-- ===== src/Script/Commands.antt =====
-- internal/script/normalize.go: how a script falls into simple commands, and when it may link sessions.
-- The program of a command, which rests on regular expressions, is not modelled.
pub mod Segments
pub mod Groups
use shard_lure.Common.{
  ℕ, zero, suc, ◌+◌, ◌-◌, ◌*◌, Bool, true, false, ◌&&◌, ◌||◌, not, List, [], ◌∷◌, ◌++◌, Bytes,
  codes, eqb, has_key, ltb, leb, ◌==◌, length, is_nil, get_or, if◌then◌else◌,
}

abbrev pub operators : List Bytes
operators = codes ";" ∷ codes "&&" ∷ codes "||" ∷ codes "|" ∷ codes "&" ∷ []

unfoldable pub is_operator : Bytes → Bool
is_operator t = has_key operators t

-- `if len(cur) > 0 { out = append(out, cur) }`
unfoldable pub close_segment : List (List Bytes) → List Bytes → List (List Bytes)
close_segment out cur = if is_nil cur then out else out ++ (cur ∷ [])

-- The inner loop of `segments`, with the step after it
unfoldable pub cut_line : List (List Bytes) → List Bytes → List Bytes → List (List Bytes)
cut_line out cur [] = close_segment out cur
cut_line out cur (t ∷ toks) =
    let ended = cut_line (close_segment out cur) [] toks in
    let longer = cut_line out (cur ++ (t ∷ [])) toks in if is_operator t then ended else longer

unfoldable pub cut_lines : List (List Bytes) → List (List Bytes) → List (List Bytes)
cut_lines out [] = out
cut_lines out (c ∷ cmds) = cut_lines (cut_line out [] c) cmds

-- `segments`
unfoldable pub segments : List (List Bytes) → List (List Bytes)
segments cmds = cut_lines [] cmds

-- `CommandCount`
unfoldable pub command_count : List (List Bytes) → ℕ
command_count cmds = length (segments cmds)

-- `strings.TrimLeft(t, "0123456789")`
unfoldable pub trim_digits : Bytes → Bytes
trim_digits [] = []
trim_digits (c ∷ t) = let rest = trim_digits t in if leb 48 c && leb c 57 then rest else c ∷ t

-- `isHeredoc`
unfoldable pub is_heredoc : Bytes → Bool
is_heredoc t = eqb (trim_digits t) (codes "<<") || eqb (trim_digits t) (codes "<<-")

-- The loop of `groupEnd`, on the words from index `j` on
unfoldable pub scan_group : ℕ → ℕ → List Bytes → ℕ
scan_group depth j [] = j - 1
scan_group depth j (t ∷ toks) =
    let deeper = scan_group (depth + 1) (j + 1) toks in
    let shallower = scan_group (depth - 1) (j + 1) toks in
    let onward = scan_group depth (j + 1) toks in
    if eqb t (10 ∷ [])
    then j - 1
    else if eqb t (codes "(")
    then deeper
    else if eqb t (codes ")")
    then (if depth - 1 == 0 then j else shallower)
    else if is_operator t || is_heredoc t
    then j - 1
    else onward

abbrev pub from_index : ℕ → List Bytes → List Bytes
from_index zero toks = toks
from_index (suc n) [] = []
from_index (suc n) (t ∷ toks) = from_index n toks

-- `groupEnd`
unfoldable pub group_end : List Bytes → ℕ → ℕ
group_end toks i =
    if leb (length toks) (i + 1) || not (eqb (get_or toks (i + 1) []) (codes "("))
    then i
    else scan_group 0 (i + 1) (from_index (i + 1) toks)
