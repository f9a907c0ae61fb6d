-- ===== src/Tests/Scripts.antt =====
-- internal/script at concrete inputs.
use shard_lure.Common.{
  ℕ, ◌≡◌, ◌≤◌, ◌<◌, refl, Bool, true, false, List, [], ◌∷◌, some, Bytes, codes, eqb, All, map,
  replicate, length, get_or, arith,
}
use shard_lure.Script.Encoding.{encode_line, join, split, tokens, first_of}
use shard_lure.Script.Encoding.RoundTrip.{IsLine, split-join, lacks}
use shard_lure.Script.Encoding.Prefix.{flatten, tokens-flatten}
use shard_lure.Script.Commands.{
  segments, cut_lines, cut_line, close_segment, is_operator, group_end, scan_group, is_heredoc,
  trim_digits,
}
use shard_lure.Script.Commands.Segments.{AreCut, segments-AreCut}
use shard_lure.Script.Commands.Groups.{is_stop, group_end_bounds}
use shard_lure.Script.Distance.{
  edit_distance, fill, fill_rows, fill_row, cell, distance, in_length_band, less, better, closest,
  Rep, assign_family,
}
use shard_lure.Script.Distance.Optimal.{IsLeast}
use shard_lure.Script.Distance.Rows.{edit_distance-IsLeast}
use shard_lure.Script.Distance.Family.{IsAnswer, assign_family-IsAnswer}
use shard_lure.Script.Key.{
  append_field, uint32_bytes, field, field_of, fixed, read_key, written, canonical_key, rsa_size,
  drop_high, strip_zeros,
}
use shard_lure.Script.Key.Canonical.{canonical_key_idempotent}
use shard_lure.Script.Key.Padding.{rsa, rsa_blob, canonical_key-rsa}

abbrev fetch : List Bytes
fetch = codes "wget" ∷ codes "URL" ∷ codes ";" ∷ codes "sh" ∷ []

abbrev fetch_swapped : List Bytes
fetch_swapped = codes "URL" ∷ codes "wget" ∷ codes ";" ∷ codes "sh" ∷ codes "-x" ∷ []

-- One swap and one addition.
fetch_distance : edit_distance fetch fetch_swapped ≡ 2
unfolding edit_distance fill fill_rows fill_row cell eqb
fetch_distance = refl

-- A swap that is edited again is no alignment: a swap and an addition make two edits, and 3 are counted.
edited_swap :
    edit_distance (codes "c" ∷ codes "a" ∷ []) (codes "a" ∷ codes "b" ∷ codes "c" ∷ []) ≡ 3
unfolding edit_distance fill fill_rows fill_row cell eqb
edited_swap = refl

edit_distance-IsLeast_example : IsLeast fetch fetch_swapped 4 5 (edit_distance fetch fetch_swapped)
edit_distance-IsLeast_example = edit_distance-IsLeast fetch fetch_swapped

abbrev families : List Rep
families =
    record { fingerprint = codes "aa"; tokens = fetch_swapped }
    ∷ record { fingerprint = codes "bb"; tokens = fetch }
    ∷ []

families_named : All (λ r. eqb r.fingerprint [] ≡ false) families
unfolding eqb
families_named = (refl, (refl, tt))

assign_family-IsAnswer_example : IsAnswer fetch families (assign_family fetch families)
assign_family-IsAnswer_example = assign_family-IsAnswer fetch families families_named

own_family :
    assign_family fetch families
    ≡ some (record { fingerprint = codes "bb"; dist = record { num = 0; den = 4 } })
unfolding assign_family closest better in_length_band less distance edit_distance fill fill_rows
    fill_row cell eqb
own_family = refl

-- No point is on any curve: the types without points do not ask.
abbrev no_curve : Bytes → Bytes → Bool
no_curve name q = false

abbrev ed25519 : Bytes
ed25519 = append_field (append_field [] (codes "ssh-ed25519")) (replicate 32 7)

ed25519_taken : canonical_key no_curve (codes "ssh-ed25519") ed25519 ≡ some ed25519
unfolding canonical_key read_key written field field_of fixed append_field uint32_bytes eqb
ed25519_taken = refl

canonical_key_idempotent_example :
    canonical_key no_curve (codes "ssh-ed25519") ed25519 ≡ some ed25519
canonical_key_idempotent_example =
    canonical_key_idempotent no_curve (codes "ssh-ed25519") ed25519 ed25519 ed25519_taken

-- A modulus of 1024 bits behind a superfluous zero.
abbrev modulus : Bytes
modulus = 0 ∷ 0 ∷ replicate 128 129

modulus_size : rsa_size (strip_zeros modulus) ≡ true
unfolding rsa_size drop_high
modulus_size = refl

canonical_key-rsa_example :
    canonical_key no_curve rsa (rsa_blob (1 ∷ 0 ∷ 1 ∷ []) modulus)
    ≡ some (rsa_blob (1 ∷ 0 ∷ 1 ∷ []) (0 ∷ replicate 128 129))
canonical_key-rsa_example =
    canonical_key-rsa no_curve (1 ∷ 0 ∷ 1 ∷ []) modulus refl refl modulus_size

abbrev script : List (List Bytes)
script = (codes "cd" ∷ codes "/tmp" ∷ []) ∷ [] ∷ fetch ∷ []

script_lines : All IsLine script
unfolding lacks
script_lines = ((refl, (refl, tt)), (tt, ((refl, (refl, (refl, (refl, tt)))), tt)))

split-join_example : split (join (map encode_line script)) ≡ script
split-join_example = split-join script script_lines refl

tokens-flatten_example :
    (tokens (join (map encode_line script))
      ≡ first_of 300 (flatten false (split (join (map encode_line script)))))
    × (length (tokens (join (map encode_line script))) ≤ 300)
tokens-flatten_example = tokens-flatten (join (map encode_line script))

script_commands :
    segments script
    ≡ (codes "cd" ∷ codes "/tmp" ∷ []) ∷ (codes "wget" ∷ codes "URL" ∷ []) ∷ (codes "sh" ∷ []) ∷ []
unfolding segments cut_lines cut_line close_segment is_operator eqb
script_commands = refl

segments-AreCut_example : AreCut script (segments script)
segments-AreCut_example = segments-AreCut script

-- `> $ ( evil ; python3`: the group is not closed.
abbrev redirection : List Bytes
redirection = codes ">" ∷ codes "$" ∷ codes "(" ∷ codes "evil" ∷ codes ";" ∷ codes "python3" ∷ []

group_end_bounds_example :
    (1 ≤ group_end redirection 1)
    × (group_end redirection 1 < 6)
    × ((k : ℕ) → 1 < k → k ≤ group_end redirection 1 → is_stop (get_or redirection k []) ≡ false)
group_end_bounds_example = group_end_bounds redirection 1 (omega arith)

unclosed : group_end redirection 1 ≡ 3
unfolding group_end scan_group is_operator is_heredoc trim_digits eqb
unclosed = refl
